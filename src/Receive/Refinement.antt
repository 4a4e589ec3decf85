-- ===== src/Receive/Refinement.antt =====
-- onTcpDataReceived does what the specification of `Receive.Frames` says.
use mathlib.Core.Option
use dsoftbus_go.Base.{
  ℕ, zero, suc, ◌+◌, ◌-◌, ◌≤◌, ◌<◌, ◌≡◌, refl, ap, sym, ◌∙◌, arith, List, [], ◌++◌, length,
  length-append, length-drop, length-take, take, drop, take-append_le, drop-append_le,
  take-append-drop, drop-drop, some, leb, Bool-cases, inl, inr, ok,
}
use dsoftbus_go.Base.Int.{ℤ, pos, negsuc}
use dsoftbus_go.Packet.{head_of, unpack_socket_pkt}
use dsoftbus_go.Packet.RoundTrip.{head_of-append, unpack_long}
use dsoftbus_go.Receive.{Delivery, next_packet, recv_loop, deliver, on_tcp_data_received}
use dsoftbus_go.Receive.Frames.{
  next_frame, Frames, stop, fail, more, End, rest, broken, frame_size, Frames-total,
}

module _ (w junk : List ℕ) (p : ℕ) (h : p + 24 ≤ length w) where
  unpack_at : unpack_socket_pkt (drop p (w ++ junk)) ≡ ok (head_of (drop p w))
  unpack_at = rw (drop-append_le p w junk (omega arith)) (
      unpack_long (drop p w ++ junk) (omega (arith, length-append (drop p w) junk, length-drop p w))
      ∙ ap ok (head_of-append (drop p w) junk (omega (arith, length-drop p w))))

  body_at :
      (n : ℕ)
      → p + (24 + n) ≤ length w
      → take n (drop (p + 24) (w ++ junk)) ≡ take n (drop 24 (drop p w))
  body_at n hn =
      rw (drop-append_le (p + 24) w junk h, drop-drop p 24 (p + 24) w refl)
        (take-append_le n (drop (p + 24) w) junk (omega (arith, length-drop (p + 24) w)))

-- The bytes of the buffer behind the used ones play no part.
next_packet-next_frame :
    (w junk : List ℕ) (p : ℕ)
    → p ≤ length w
    → next_packet (w ++ junk) (length w) p ≡ next_frame (drop p w)
unfolding next_packet next_frame
next_packet-next_frame w junk p h = elim (Bool-cases (leb (p + 24) (length w))) [
  | inr short ↦ ground (arith, length-drop p w)
  | inl long ↦
      let at : p + 24 ≤ length w = ground arith in
      rw (long, unpack_at w junk p at)
        (ground (arith, length-drop p w, body_at w junk p at (head_of (drop p w)).len))
]

-- What the Go function returns: the number of bytes that it is done with, or -1.
abbrev pub returned : List ℕ → End → ℤ
returned w (rest r) = pos (length w - length r)
returned w broken = negsuc 0

recv_loop-Frames :
    (fuel : ℕ) {v : List ℕ} {ds : List Delivery} {e : End}
    → Frames v ds e
    → (w junk : List ℕ) (p : ℕ) → p ≤ length w
    → v ≡ drop p w
    → length v < fuel
    → recv_loop fuel (w ++ junk) (length w) p ≡ some (returned w e, ds)
unfolding recv_loop
recv_loop-Frames zero f w junk p hp q hf = absurd (omega arith)
recv_loop-Frames (suc fuel) (stop v h) w junk p hp q hf =
    rw (next_packet-next_frame w junk p hp ∙ ap next_frame (sym q) ∙ h, recv_loop)
      (ap (λ (t : ℕ). some (pos t, [])) (omega (arith, ap length q, length-drop p w)))
recv_loop-Frames (suc fuel) (fail v h) w junk p hp q hf =
    rw (next_packet-next_frame w junk p hp ∙ ap next_frame (sym q) ∙ h, recv_loop) refl
recv_loop-Frames (suc fuel) (more v d h f) w junk p hp q hf =
    let size = frame_size v d h in
    rw (next_packet-next_frame w junk p hp ∙ ap next_frame (sym q) ∙ h, recv_loop)
      (ap (Option.map (deliver d)) (
        recv_loop-Frames fuel f w junk (p + (24 + d.head.len))
          (omega (arith, size.1, ap length q, length-drop p w))
          (ap (drop (24 + d.head.len)) q
            ∙ drop-drop p (24 + d.head.len) (p + (24 + d.head.len)) w refl)
          (omega (arith, size.0, size.1, length-drop (24 + d.head.len) v))))

pub received_as :
    (buf : List ℕ) (used : ℕ) {ds : List Delivery} {e : End}
    → used ≤ length buf
    → Frames (take used buf) ds e
    → on_tcp_data_received buf used ≡ some (returned (take used buf) e, ds)
unfolding on_tcp_data_received
received_as buf used h f =
    let size : length (take used buf) ≡ used = omega (arith, length-take used buf) in
    rw
      (ap (λ (b : List ℕ). recv_loop (used + 1) b used 0) (sym (take-append-drop used buf))
        ∙ ap (λ (n : ℕ). recv_loop (used + 1) (take used buf ++ drop used buf) n 0) (sym size))
      (recv_loop-Frames (used + 1) f (take used buf) (drop used buf) 0 (omega arith) refl
        (omega arith))

-- Whatever the first `used` bytes of a buffer are, onTcpDataReceived returns. They are a sequence of
-- packets up to an end, and it delivers just these packets, in their order. It returns the number
-- of bytes of the packets if the end is an incomplete packet, and -1 if it is a head that is not
-- good. The bytes of the buffer behind the used ones play no part.
pub on_tcp_data_received-Frames :
    (buf : List ℕ) (used : ℕ)
    → used ≤ length buf
    → (ds : List Delivery) × (e : End) × Frames (take used buf) ds e
      × (on_tcp_data_received buf used ≡ some (returned (take used buf) e, ds))
on_tcp_data_received-Frames buf used h =
    let (ds, e, f) = Frames-total (length (take used buf)) (take used buf) (omega arith) in
    (ds, e, f, received_as buf used h f)
