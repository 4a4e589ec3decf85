-- ===== src/ReadLoop/Runs.antt =====
-- Concrete reads, and the theorems at concrete inputs.
use dsoftbus_go.Base.{
  ◌==◌, nat_eq, if◌then◌else◌, take, drop, length-take, take-append-drop, ◌∙◌, ℕ, zero, suc, ◌≡◌,
  ◌<◌, refl, sym, ap, arith, List, [], ◌∷◌, length, some, append-nil,
}
use dsoftbus_go.Base.Int.{pos, uint32, uint64}
use dsoftbus_go.Base.Bytes.{le_put}
use dsoftbus_go.Types.{magic_number}
use dsoftbus_go.Packet.{head_bytes}
use dsoftbus_go.Packet.Runs.{msg_bytes}
use dsoftbus_go.Receive.{Delivery}
use dsoftbus_go.Receive.Streams.{IsSendable, frame_bytes, stream, length-frame_bytes}
use dsoftbus_go.Receive.Runs.{msg, msg-IsSendable}
use dsoftbus_go.ReadLoop.{Buffer, close_overflow, continue, process_read, default_buf_size}
use dsoftbus_go.ReadLoop.Chunks.{
  IsFresh, Run, opened, read, never_closes, delivers_in_full, oversize_never_delivered,
}

repeat : ℕ → ℕ → List ℕ
repeat zero x = []
repeat (suc n) x = x ∷ repeat n x

length-repeat : (n x : ℕ) → length (repeat n x) ≡ n
unfolding repeat
length-repeat zero x = refl
length-repeat (suc n) x = ap suc (length-repeat n x)

fresh : Buffer
fresh = record { bytes = repeat 1536 0; used = 0 }

fresh-IsFresh : IsFresh fresh
unfolding fresh
fresh-IsFresh = (length-repeat 1536 0, refl)

abbrev one_read :
    (b' : Buffer) × (ds' : List Delivery) × (process_read fresh msg_bytes ≡ some (continue b' ds'))
unfolding head_bytes le_put uint32 uint64 fresh
one_read =
    never_closes fresh fresh [] msg_bytes [] [] (msg ∷ []) fresh-IsFresh opened (msg-IsSendable, tt)
      (omega arith, tt) refl (omega arith)

never_closes_example :
    (b' : Buffer) × (ds' : List Delivery) × (process_read fresh (0xCE ∷ [])
      ≡ some (continue b' ds'))
unfolding head_bytes le_put uint32 uint64 fresh
never_closes_example =
    never_closes fresh fresh [] (0xCE ∷ [])
      (0xFA ∷ 0xBE ∷ 0xBA ∷ 9 ∷ 0 ∷ 0 ∷ 0 ∷ 7 ∷ 0 ∷ 0 ∷ 0 ∷ 0 ∷ 0 ∷ 0 ∷ 0 ∷ 255 ∷ 255 ∷ 255 ∷ 255
        ∷ 2 ∷ 0 ∷ 0 ∷ 0 ∷ 104 ∷ 105 ∷ [])
      [] (msg ∷ []) fresh-IsFresh opened (msg-IsSendable, tt) (omega arith, tt) refl (omega arith)

read_once : Run fresh one_read.0 (stream (msg ∷ [])) one_read.1
unfolding head_bytes le_put uint32 uint64 fresh
read_once = read opened msg_bytes (omega arith) (omega arith) one_read.2

delivers_in_full_example : (one_read.1 ≡ msg ∷ []) × (one_read.0.used ≡ 0)
delivers_in_full_example =
    delivers_in_full fresh one_read.0 one_read.1 (msg ∷ []) fresh-IsFresh read_once
      (msg-IsSendable, tt)

-- A packet with a payload of 1600 bytes.
big : Delivery
big = record {
  head = record { magic = magic_number; module_id = pos 9; seq = pos 1; flag = pos 0; len = 1600 };
  body = repeat 1600 1;
}

big-IsSendable : IsSendable big
unfolding big
big-IsSendable = record {
  head_ok = record {
    magic_fits = omega arith;
    module_fits = omega arith;
    seq_fits = omega arith;
    flag_fits = omega arith;
    len_fits = omega arith;
  };
  magic_ok = refl;
  not_empty = omega arith;
  not_long = omega arith;
  body_size = length-repeat 1600 1;
}

big-size : length big.body ≡ 1600
unfolding big
big-size = length-repeat 1600 1

big-long : default_buf_size < length (frame_bytes big)
big-long = omega (arith, length-frame_bytes big big-IsSendable, big-size)

-- The read that fills the buffer with the packet's first 1536 bytes.
front-size : length (take 1536 (frame_bytes big)) ≡ 1536
front-size = omega (arith, length-take 1536 (frame_bytes big), big-long)

oversize_never_delivered_example :
    (◌≡◌ {A = List Delivery} [] [])
    × (length {A = ℕ} [] < default_buf_size)
    × (b' : Buffer) × (process_read fresh (take 1536 (frame_bytes big))
        ≡ some (
            if length (take 1536 (frame_bytes big)) == default_buf_size
            then close_overflow []
            else continue b' []))
oversize_never_delivered_example =
    oversize_never_delivered fresh-IsFresh opened big (take 1536 (frame_bytes big))
      (drop 1536 (frame_bytes big)) [] big-IsSendable big-long
      (take-append-drop 1536 (frame_bytes big) ∙ sym (append-nil (frame_bytes big)))
      (omega (arith, front-size, fresh-IsFresh.1))
