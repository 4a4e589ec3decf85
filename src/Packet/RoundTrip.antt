-- ===== src/Packet/RoundTrip.antt =====
-- Packing and unpacking are inverse to one another.
use dsoftbus_go.Base.{
  ℕ, ◌+◌, ◌^◌, ◌%◌, ◌≤◌, ◌<◌, ◌≡◌, refl, ap, ◌∙◌, arith, List, ◌++◌, append_assoc, length,
  length-append, take, drop, drop-append_exact, take-append_le, drop-append_le, take-split,
  drop-drop, All-take, All-drop, length-take, length-drop, All, some, ok,
}
use dsoftbus_go.Base.Int.{
  int32-uint32, int64-uint64, uint32-lt, uint64-lt, uint32-int32, uint64-int64, uint32, uint64,
  int32, int64,
}
use dsoftbus_go.Base.Bytes.{le_put, le_get, le_get-le_put, le_put-le_get, le_get-lt, IsByte}
use dsoftbus_go.Types.{SocketPktHead}
use dsoftbus_go.Packet.{IsHead, head_bytes, head_of, pack_socket_pkt, unpack_socket_pkt}

pub length-head_bytes : (h : SocketPktHead) → length (head_bytes h) ≡ 24
unfolding head_bytes le_put
length-head_bytes h = refl

pub head_of-head_bytes :
    (h : SocketPktHead) (rest : List ℕ) → IsHead h → head_of (head_bytes h ++ rest) ≡ h
unfolding head_bytes head_of le_put
head_of-head_bytes h rest v =
    let module_path =
      ap int32 (le_get-le_put 4 (uint32 h.module_id) (uint32-lt h.module_id))
      ∙ int32-uint32 h.module_id v.module_fits in
    let seq_path =
      ap int64 (le_get-le_put 8 (uint64 h.seq) (uint64-lt h.seq)) ∙ int64-uint64 h.seq v.seq_fits in
    let flag_path =
      ap int32 (le_get-le_put 4 (uint32 h.flag) (uint32-lt h.flag))
      ∙ int32-uint32 h.flag v.flag_fits in
    λ i. record {
      magic = le_get-le_put 4 h.magic v.magic_fits i;
      module_id = module_path i;
      seq = seq_path i;
      flag = flag_path i;
      len = le_get-le_put 4 h.len v.len_fits i;
    }

pub pack-ok :
    (h : SocketPktHead) (payload buf : List ℕ)
    → pack_socket_pkt (some h) (some payload) ≡ ok buf
    → (buf ≡ head_bytes h ++ payload) × (h.len ≡ length payload % 2 ^ 32)
unfolding pack_socket_pkt
pack-ok h payload buf e = ground arith

pub unpack_long : (buf : List ℕ) → 24 ≤ length buf → unpack_socket_pkt buf ≡ ok (head_of buf)
unfolding unpack_socket_pkt
unpack_long buf h = ground arith

pub drop-head_bytes : (h : SocketPktHead) (rest : List ℕ) → drop 24 (head_bytes h ++ rest) ≡ rest
drop-head_bytes h rest = drop-append_exact 24 (head_bytes h) rest (length-head_bytes h)

-- For a head with fields in range: unpacking what was packed, with any bytes behind it, gives back the head, and the bytes behind
-- the 24 of the head are the payload and what follows; the packet is 24 bytes longer than its payload.
pub unpack-pack :
    (h : SocketPktHead) (payload rest buf : List ℕ)
    → IsHead h
    → pack_socket_pkt (some h) (some payload) ≡ ok buf
    → (unpack_socket_pkt (buf ++ rest) ≡ ok h)
      × (drop 24 (buf ++ rest) ≡ payload ++ rest)
      × (length buf ≡ length payload + 24)
unpack-pack h payload rest buf v e =
    rw ((pack-ok h payload buf e).0, append_assoc (head_bytes h) payload rest)
      (
        unpack_long _
              (omega (arith, length-append (head_bytes h) (payload ++ rest), length-head_bytes h))
            ∙ ap ok (head_of-head_bytes h (payload ++ rest) v),
        drop-head_bytes h (payload ++ rest),
        omega (arith, length-append (head_bytes h) payload, length-head_bytes h),
      )

field-append :
    (o k : ℕ) (w v : List ℕ) → o + k ≤ length w → take k (drop o (w ++ v)) ≡ take k (drop o w)
field-append o k w v h =
    rw (drop-append_le o w v (omega arith))
      (take-append_le k (drop o w) v (omega (arith, length-drop o w)))

-- A head does not depend on what follows its 24 bytes.
pub head_of-append : (w v : List ℕ) → 24 ≤ length w → head_of (w ++ v) ≡ head_of w
unfolding head_of
head_of-append w v h =
    rw
      (
        field-append 4 4 w v (omega arith),
        field-append 8 8 w v (omega arith),
        field-append 16 4 w v (omega arith),
        field-append 20 4 w v (omega arith),
        take-append_le 4 w v (omega arith),
      )
      refl

-- The bytes of a field read back.
reread : (k : ℕ) (bs : List ℕ) → All IsByte bs → length bs ≡ k → le_put k (le_get bs) ≡ bs
reread k bs h e = rw (← e) (le_put-le_get bs h)

module _ (buf : List ℕ) (bytes : All IsByte buf) (long : 24 ≤ length buf) where
  -- The field of k bytes at the offset o: its bytes, its length and its range.
  field :
      (o k : ℕ)
      → o + k ≤ 24
      → (le_put k (le_get (take k (drop o buf))) ≡ take k (drop o buf))
        × (le_get (take k (drop o buf)) < 256 ^ k)
  field o k h =
      let b = All-take IsByte k (drop o buf) (All-drop IsByte o buf bytes) in
      let e : length (take k (drop o buf)) ≡ k =
        omega (arith, length-take k (drop o buf), length-drop o buf) in
      (reread k (take k (drop o buf)) b e, le_get-lt k (take k (drop o buf)) b e)

  -- Of at least 24 bytes, the first 24 are the packing of the head that is read from them.
  pub head_bytes-head_of : head_bytes (head_of buf) ≡ take 24 buf
  unfolding head_bytes head_of
  head_bytes-head_of =
      let m = field 4 4 (omega arith) in
      let q = field 8 8 (omega arith) in
      let f = field 16 4 (omega arith) in
      rw
        (
          take-split 4 20 24 buf (omega arith),
          take-split 4 16 20 (drop 4 buf) (omega arith),
          drop-drop 4 4 8 buf (omega arith),
          take-split 8 8 16 (drop 8 buf) (omega arith),
          drop-drop 8 8 16 buf (omega arith),
          take-split 4 4 8 (drop 16 buf) (omega arith),
          drop-drop 16 4 20 buf (omega arith),
        )
        (rw
          (
            (field 0 4 (omega arith)).0,
            uint32-int32 _ m.1,
            m.0,
            uint64-int64 _ q.1,
            q.0,
            uint32-int32 _ f.1,
            f.0,
            (field 20 4 (omega arith)).0,
          )
          refl)
