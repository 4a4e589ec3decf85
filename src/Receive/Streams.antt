-- ===== src/Receive/Streams.antt =====
-- Sending and receiving: what PackSocketPkt wrote is delivered, and what is delivered was written.
use dsoftbus_go.Base.{
  ℕ, ◌+◌, ◌≤◌, ◌<◌, ◌≡◌, refl, ap, sym, ◌∙◌, arith, List, [], ◌∷◌, ◌++◌, append_assoc, append-nil,
  length, length-append, drop, take-append_exact, drop-append_exact, take-append-drop, take-split,
  All, All-drop, some, Result, ok, ◌>>=◌, true,
}
use dsoftbus_go.Base.Bytes.{IsByte}
use dsoftbus_go.Base.Int.{pos}
use dsoftbus_go.Types.{magic_number, auth_socket_max_data_len}
use dsoftbus_go.Packet.{IsHead, PktError, head_bytes, head_of, pack_socket_pkt}
use dsoftbus_go.Packet.RoundTrip.{
  head_of-append, head_of-head_bytes, length-head_bytes, drop-head_bytes, head_bytes-head_of,
}
use dsoftbus_go.Receive.{Delivery, incomplete, packet, good_head, on_tcp_data_received}
use dsoftbus_go.Receive.Frames.{
  rest-injective, next_frame, Frames, stop, fail, more, End, rest, frame_size,
}
use dsoftbus_go.Receive.Refinement.{received_as}

-- A packet that the receiver takes: fields in range, the right magic number, 1 byte to 64 KB.
pub record IsSendable (d : Delivery) : Type 0 where
  pub head_ok : IsHead d.head
  pub magic_ok : d.head.magic ≡ magic_number
  pub not_empty : 0 < d.head.len
  pub not_long : d.head.len ≤ auth_socket_max_data_len
  pub body_size : length d.body ≡ d.head.len

-- The packets packed one behind the other.
unfoldable pub pack_all : List Delivery → Result PktError (List ℕ)
pack_all [] = ok []
pack_all (d ∷ ds) = do
  b ← pack_socket_pkt (some d.head) (some d.body)
  bs ← pack_all ds
  ok (b ++ bs)

abbrev pub frame_bytes : Delivery → List ℕ
frame_bytes d = head_bytes d.head ++ d.body

ok-injective : {a b : List ℕ} → ◌≡◌ {A = Result PktError (List ℕ)} (ok a) (ok b) → a ≡ b
ok-injective e = cc

-- What the packets of a list look like on the wire.
abbrev pub stream : List Delivery → List ℕ
stream [] = []
stream (d ∷ ds) = frame_bytes d ++ stream ds

pub pack-frame_bytes :
    (d : Delivery) → IsSendable d → pack_socket_pkt (some d.head) (some d.body) ≡ ok (frame_bytes d)
unfolding pack_socket_pkt
pack-frame_bytes d v = ground (arith, v.body_size, v.not_long)

pub pack_all-stream : (ds : List Delivery) → All IsSendable ds → pack_all ds ≡ ok (stream ds)
unfolding pack_all
pack_all-stream [] h = refl
pack_all-stream (d ∷ ds) (v, vs) = rw (pack-frame_bytes d v, pack_all-stream ds vs) refl

module _ (d : Delivery) (v : IsSendable d) where
  pub good_head_of_sendable : good_head d.head ≡ true
  good_head_of_sendable = ground (arith, v.magic_ok, v.not_empty, v.not_long)

  pub length-frame_bytes : length (frame_bytes d) ≡ 24 + length d.body
  length-frame_bytes =
      omega (arith, length-append (head_bytes d.head) d.body, length-head_bytes d.head)

  -- A packet at the front is recognised, whatever follows.
  pub next_frame-frame_bytes : (w : List ℕ) → next_frame (frame_bytes d ++ w) ≡ packet d
  unfolding next_frame
  next_frame-frame_bytes w =
      rw
        (
          append_assoc (head_bytes d.head) d.body w,
          head_of-head_bytes d.head (d.body ++ w) v.head_ok,
          drop-head_bytes d.head (d.body ++ w),
          take-append_exact d.head.len d.body w v.body_size,
        )
        (ground (
          arith,
          good_head_of_sendable,
          length-append (head_bytes d.head) (d.body ++ w),
          length-append d.body w,
          length-head_bytes d.head,
          v.body_size,
        ))

  -- A part of a packet waits for the rest.
  pub next_frame_partial :
      (w x : List ℕ) → w ++ x ≡ frame_bytes d → 0 < length x → next_frame w ≡ incomplete
  unfolding next_frame
  next_frame_partial w x e h = ground (
    arith,
    good_head_of_sendable,
    v.body_size,
    head_of-append w x,
    head_of-head_bytes d.head d.body v.head_ok,
    length-append w x,
    length-frame_bytes,
    ap length e,
    ap head_of e,
  )

  pub drop-frame_bytes : (w : List ℕ) → drop (24 + d.head.len) (frame_bytes d ++ w) ≡ w
  drop-frame_bytes w =
      drop-append_exact (24 + d.head.len) (frame_bytes d) w
        (omega (arith, length-frame_bytes, v.body_size))

-- Packets that were sent are cut out as they were sent, and the bytes behind them are left.
pub stream-Frames :
    (ds : List Delivery) (w : List ℕ) {ds' : List Delivery} {e : End}
    → All IsSendable ds
    → Frames w ds' e
    → Frames (stream ds ++ w) (ds ++ ds') e
stream-Frames [] w h f = f
stream-Frames (d ∷ ds) w (v, vs) f = rw (append_assoc (frame_bytes d) (stream ds) w) (
    more (frame_bytes d ++ (stream ds ++ w)) d (next_frame-frame_bytes d v (stream ds ++ w))
      (rw (drop-frame_bytes d v (stream ds ++ w)) (stream-Frames ds w vs f)))

-- The bytes that a packet took are its packing.
pub packet-bytes :
    (w : List ℕ) (d : Delivery)
    → All IsByte w
    → next_frame w ≡ packet d
    → frame_bytes d ++ drop (24 + d.head.len) w ≡ w
packet-bytes w d bytes e =
    let size = frame_size w d e in
    rw (size.3, size.2, head_bytes-head_of w bytes (omega (arith, size.1)))
      (ap (λ (t : List ℕ). t ++ drop (24 + (head_of w).len) w)
          (sym (take-split 24 (head_of w).len (24 + (head_of w).len) w refl))
        ∙ take-append-drop (24 + (head_of w).len) w)

-- What onTcpDataReceived delivers out of any bytes is what was sent: packed again, the packets are
-- the bytes that it is done with, and the rest is left.
pub Frames-stream :
    {w : List ℕ} {ds : List Delivery} {e : End}
    → Frames w ds e
    → (r : List ℕ) → All IsByte w
    → e ≡ rest r
    → w ≡ stream ds ++ r
Frames-stream (stop w h) r b q = cc (let rest_of : w ≡ r = rest-injective q in rest_of)
Frames-stream (fail w h) r b q = absurd (cc q)
Frames-stream (more {ds = ds} w d h f) r b q =
    let ih = Frames-stream f r (All-drop IsByte (24 + d.head.len) w b) q in
    sym (packet-bytes w d b h)
    ∙ ap (λ (t : List ℕ). frame_bytes d ++ t) ih
    ∙ sym (append_assoc (frame_bytes d) (stream ds) r)

-- Packets with fields in range and 1 byte to 64 KB, sent one behind the other, are received as they were sent, when a part of a further packet
-- (or nothing) follows them in the used bytes: onTcpDataReceived delivers them all in order and
-- says that it is done with their bytes.
pub on_tcp_data_received-pack_all :
    (ds : List Delivery) (s part more_bytes junk : List ℕ) (next : Delivery)
    → All IsSendable ds
    → IsSendable next
    → pack_all ds ≡ ok s
    → part ++ more_bytes ≡ frame_bytes next
    → 0 < length more_bytes
    → on_tcp_data_received ((s ++ part) ++ junk) (length (s ++ part)) ≡ some (pos (length s), ds)
on_tcp_data_received-pack_all ds s part more_bytes junk next h v e q pos_len =
    let w : List ℕ = stream ds ++ part in
    let f =
      stream-Frames ds part h (stop part (next_frame_partial next v part more_bytes q pos_len)) in
    let same : s ≡ stream ds = ok-injective (sym e ∙ pack_all-stream ds h) in
    rw same (
      received_as (w ++ junk) (length w) {ds = ds ++ []} {e = rest part}
        (omega (arith, length-append w junk)) (rw (take-append_exact (length w) w junk refl) f)
      ∙ rw (take-append_exact (length w) w junk refl, append-nil ds)
          (ap (λ (n : ℕ). some (pos n, ds)) (omega (arith, length-append (stream ds) part))))
