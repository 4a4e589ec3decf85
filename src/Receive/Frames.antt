-- ===== src/Receive/Frames.antt =====
-- The specification: what a byte sequence is as a sequence of packets. No buffer, no index.
use dsoftbus_go.Base.{
  ℕ, zero, suc, ◌+◌, ◌≤◌, ◌≡◌, ◌⊎◌, inl, inr, refl, ap, sym, ◌∙◌, arith, List, [], ◌∷◌, ◌++◌,
  length, length-append, length-drop, take, drop, take-append_le, drop-append_le, if◌then◌else◌,
  ltb, true,
}
use dsoftbus_go.Packet.{head_of}
use dsoftbus_go.Packet.RoundTrip.{head_of-append}
use dsoftbus_go.Receive.{Delivery, Next, incomplete, corrupt, packet, good_head}

-- The first packet of a byte sequence.
unfoldable pub next_frame : List ℕ → Next
next_frame w =
    let head = head_of w in
    if ltb (length w) 24
    then incomplete
    else if good_head head
    then (if ltb (length w) (24 + head.len)
        then incomplete
        else packet (record { head = head; body = take head.len (drop 24 w) }))
    else corrupt

-- Where the packets end: in bytes that wait for more, or in bytes that are no packet.
pub data End : Type 0 where
  rest : List ℕ → End
  broken : End

pub data Frames : List ℕ → List Delivery → End → Type 0 where
  stop : (w : List ℕ) → next_frame w ≡ incomplete → Frames w [] (rest w)
  fail : (w : List ℕ) → next_frame w ≡ corrupt → Frames w [] broken
  more :
      {ds : List Delivery} {e : End} (w : List ℕ) (d : Delivery)
      → next_frame w ≡ packet d
      → Frames (drop (24 + d.head.len) w) ds e
      → Frames w (d ∷ ds) e

-- A frame is 25 bytes at least and lies within the sequence.
pub frame_size :
    (w : List ℕ) (d : Delivery)
    → next_frame w ≡ packet d
    → (25 ≤ 24 + d.head.len)
      × (24 + d.head.len ≤ length w)
      × (d.head ≡ head_of w)
      × (d.body ≡ take d.head.len (drop 24 w))
      × (good_head (head_of w) ≡ true)
unfolding next_frame
frame_size w d e = ground arith

-- Bytes that follow change neither a packet nor a fault that is already there.
pub next_frame-append_packet :
    (w v : List ℕ) (d : Delivery) → next_frame w ≡ packet d → next_frame (w ++ v) ≡ packet d
unfolding next_frame
next_frame-append_packet w v d e = ground (
  arith,
  frame_size w d e,
  head_of-append w v,
  length-append w v,
  length-drop 24 w,
  drop-append_le 24 w v,
  take-append_le d.head.len (drop 24 w) v,
)

pub next_frame-append_corrupt :
    (w v : List ℕ) → next_frame w ≡ corrupt → next_frame (w ++ v) ≡ corrupt
unfolding next_frame
next_frame-append_corrupt w v e = ground (arith, head_of-append w v, length-append w v)

-- What follows a packet is what followed it before, and the bytes behind.
drop-append_packet :
    (w v : List ℕ) (d : Delivery)
    → next_frame w ≡ packet d
    → drop (24 + d.head.len) (w ++ v) ≡ drop (24 + d.head.len) w ++ v
drop-append_packet w v d e = drop-append_le (24 + d.head.len) w v (frame_size w d e).1

pub rest-injective : {w r : List ℕ} → rest w ≡ rest r → w ≡ r
rest-injective e = cc

packet-injective : {d d' : Delivery} → packet d ≡ packet d' → d ≡ d'
packet-injective e = cc

-- A byte sequence is a sequence of packets in one way only.
pub Frames-deterministic :
    {w w' : List ℕ} {ds ds' : List Delivery} {e e' : End}
    → Frames w ds e
    → Frames w' ds' e'
    → w ≡ w'
    → (ds ≡ ds') × (e ≡ e')
Frames-deterministic (stop w h) (stop w' h') p = (refl, ap rest p)
Frames-deterministic (stop w h) (fail w' h') p = absurd (cc (h, h', ap next_frame p))
Frames-deterministic (stop w h) (more w' d' h' f') p = absurd (cc (h, h', ap next_frame p))
Frames-deterministic (fail w h) (stop w' h') p = absurd (cc (h, h', ap next_frame p))
Frames-deterministic (fail w h) (fail w' h') p = (refl, refl)
Frames-deterministic (fail w h) (more w' d' h' f') p = absurd (cc (h, h', ap next_frame p))
Frames-deterministic (more w d h f) (stop w' h') p = absurd (cc (h, h', ap next_frame p))
Frames-deterministic (more w d h f) (fail w' h') p = absurd (cc (h, h', ap next_frame p))
Frames-deterministic (more w d h f) (more w' d' h' f') p =
    let same : d ≡ d' = packet-injective (sym h ∙ ap next_frame p ∙ h') in
    let ih = Frames-deterministic f f' (cc (p, ap (λ (x : Delivery). 24 + x.head.len) same)) in
    (cc (same, ih.0), ih.1)

-- Cutting may stop at any byte and go on later: nothing depends on how the bytes arrive.
pub Frames-append :
    {w : List ℕ} {ds : List Delivery} {x : End}
    → Frames w ds x
    → (v r : List ℕ) {ds' : List Delivery} {e : End} → x ≡ rest r
    → Frames (r ++ v) ds' e
    → Frames (w ++ v) (ds ++ ds') e
Frames-append (stop w h) v r {ds' = ds'} {e = e} q g =
    rw (let same : w ≡ r = rest-injective q in same) g
Frames-append (fail w h) v r q g = absurd (cc q)
Frames-append (more w d h f) v r q g =
    more (w ++ v) d (next_frame-append_packet w v d h)
      (rw (drop-append_packet w v d h) (Frames-append f v r q g))

pub Frames-append_broken :
    {w : List ℕ} {ds : List Delivery} {x : End}
    → Frames w ds x
    → (v : List ℕ) → x ≡ broken
    → Frames (w ++ v) ds broken
Frames-append_broken (stop w h) v q = absurd (cc q)
Frames-append_broken (fail w h) v q = fail (w ++ v) (next_frame-append_corrupt w v h)
Frames-append_broken (more w d h f) v q =
    more (w ++ v) d (next_frame-append_packet w v d h)
      (rw (drop-append_packet w v d h) (Frames-append_broken f v q))

Next-cases : (n : Next) → (n ≡ incomplete) ⊎ ((n ≡ corrupt) ⊎ ((d : Delivery) × (n ≡ packet d)))
Next-cases incomplete = inl refl
Next-cases corrupt = inr (inl refl)
Next-cases (packet d) = inr (inr (d, refl))

-- Every byte sequence is cut to its end.
pub Frames-total :
    (n : ℕ) (w : List ℕ) → length w ≤ n → (ds : List Delivery) × (e : End) × Frames w ds e
Frames-total zero w h = elim (Next-cases (next_frame w)) [
  | inl e ↦ ([], rest w, stop w e)
  | inr (inl e) ↦ ([], broken, fail w e)
  | inr (inr (d, e)) ↦ absurd (omega (arith, (frame_size w d e).0, (frame_size w d e).1))
]
Frames-total (suc n) w h = elim (Next-cases (next_frame w)) [
  | inl e ↦ ([], rest w, stop w e)
  | inr (inl e) ↦ ([], broken, fail w e)
  | inr (inr (d, e)) ↦
      let size = frame_size w d e in
      let (ds, x, f) =
        Frames-total n (drop (24 + d.head.len) w)
          (omega (arith, size.0, size.1, length-drop (24 + d.head.len) w)) in
      (d ∷ ds, x, more w d e f)
]
