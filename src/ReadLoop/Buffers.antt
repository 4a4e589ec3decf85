-- ===== src/ReadLoop/Buffers.antt =====
-- The buffer holds the bytes that wait for the rest of their packet.
use mathlib.Core.Option
use dsoftbus_go.Base.{
  ℕ, zero, suc, ◌+◌, ◌-◌, ◌≤◌, ◌<◌, ◌≡◌, refl, ap, sym, ◌∙◌, arith, List, ◌++◌, append_assoc,
  length, length-append, length-drop, length-take, take, drop, take-append_exact, drop-append_exact,
  take-split, leb→le, drop-drop, some, ◌⊎◌, inl, inr, ltb, leb, Bool-cases,
}
use dsoftbus_go.Base.Int.{pos}
use dsoftbus_go.Receive.{Delivery}
use dsoftbus_go.Receive.Frames.{
  Frames, stop, fail, more, End, rest, broken, frame_size, rest-injective,
}
use dsoftbus_go.Receive.Refinement.{received_as, returned}
use dsoftbus_go.ReadLoop.{
  Buffer, ReadResult, continue, close_bad, close_overflow, check_overflow, move_to_front,
  after_callback, process_read, default_buf_size,
}

-- The buffer `b` holds the bytes `w` and is as long as it was made.
pub record Holds (b : Buffer) (w : List ℕ) : Type 0 where
  pub size : length b.bytes ≡ default_buf_size
  pub within : b.used ≤ default_buf_size
  pub window : take b.used b.bytes ≡ w

pub Holds-used : {b : Buffer} {w : List ℕ} → Holds b w → b.used ≡ length w
Holds-used {b} h = omega (arith, ap length h.window, length-take b.used b.bytes, h.size, h.within)

-- The rest is a tail of the bytes.
Frames-tail :
    {w : List ℕ} {ds : List Delivery} {e : End}
    → Frames w ds e
    → (r : List ℕ) → e ≡ rest r
    → (n : ℕ) × (n ≤ length w) × (r ≡ drop n w)
Frames-tail (stop w h) r q = (0, omega arith, sym (rest-injective q))
Frames-tail (fail w h) r q = absurd (cc q)
Frames-tail (more w d h f) r q =
    let (n, le, e) = Frames-tail f r q in
    (
      24 + d.head.len + n,
      omega (arith, length-drop (24 + d.head.len) w, (frame_size w d h).1),
      e ∙ drop-drop (24 + d.head.len) n (24 + d.head.len + n) w refl,
    )

take-drop : (m n : ℕ) (xs : List ℕ) → m ≤ length xs → take n (drop m xs) ≡ drop m (take (m + n) xs)
take-drop m n xs h =
    rw (take-split m n (m + n) xs refl)
      (sym (drop-append_exact m (take m xs) (take n (drop m xs)) (omega (arith, length-take m xs))))

-- What a read leads to, by the packets that the buffered bytes then hold.
abbrev pub ReadsTo : End → List Delivery → ReadResult → Type 0
ReadsTo broken ds res = res ≡ close_bad ds
ReadsTo (rest r) ds res =
    ((length r < default_buf_size) × (b : Buffer) × (res ≡ continue b ds) × Holds b r)
    ⊎ ((length r ≡ default_buf_size) × (res ≡ close_overflow ds))

checked :
    (b : Buffer) (r : List ℕ) (ds : List Delivery)
    → Holds b r
    → ReadsTo (rest r) ds (check_overflow b ds)
checked b r ds h = elim (Bool-cases (leb (length b.bytes) b.used)) [
  | inl full ↦ inr (omega (arith, leb→le _ _ full, h.size, h.within, Holds-used h), rw full)
  | inr free ↦ inl (ground (arith, h.size, Holds-used h), b, rw free, h)
]

module _ (bytes : List ℕ) (used p : ℕ) (size : length bytes ≡ default_buf_size)
    (within : used ≤ default_buf_size) (le : p ≤ used) where
  unprocessed : take (used - p) (drop p bytes) ≡ drop p (take used bytes)
  unprocessed =
      take-drop p (used - p) bytes (omega arith)
      ∙ ap (λ (n : ℕ). drop p (take n bytes)) (omega arith)

  length-unprocessed : length (take (used - p) (drop p bytes)) ≡ used - p
  length-unprocessed = omega (arith, length-take (used - p) (drop p bytes), length-drop p bytes)

  moved : Holds (move_to_front bytes p (used - p)) (drop p (take used bytes))
  moved = elim (Bool-cases (ltb 0 (used - p))) [
    | inl some_left ↦ rw some_left (record {
      size = omega (
        arith,
        length-append (take (used - p) (drop p bytes)) (drop (used - p) bytes),
        length-unprocessed,
        length-drop (used - p) bytes,
      );
      within = omega arith;
      window =
          take-append_exact (used - p) (take (used - p) (drop p bytes)) (drop (used - p) bytes)
            length-unprocessed
          ∙ unprocessed;
    })
    | inr none_left ↦
        let none : used - p ≡ 0 = ground arith in
        rw none_left (record {
          size = size;
          within = omega arith;
          window =
              ap (λ (n : ℕ). take n bytes) none
              ∙ sym (ap (λ (n : ℕ). take n (drop p bytes)) none)
              ∙ unprocessed;
        })
  ]

  settled :
      (r : List ℕ) (ds : List Delivery)
      → r ≡ drop p (take used bytes)
      → ReadsTo (rest r) ds (after_callback bytes used (pos p, ds))
  unfolding after_callback
  settled r ds e = go p refl
    where
      go : (n : ℕ) → p ≡ n → ReadsTo (rest r) ds (after_callback bytes used (pos n, ds))
      go zero q =
          checked (record { bytes = bytes; used = used }) r ds
            (record {
              size = size;
              within = within;
              window = sym (e ∙ ap (λ (n : ℕ). drop n (take used bytes)) q);
            })
      go (suc n) q =
          rw (e, ← q)
            (checked (move_to_front bytes p (used - p)) (drop p (take used bytes)) ds moved)

-- What the callback returned decides, as the specification says.
outcome :
    (bytes : List ℕ) (used : ℕ) (v : List ℕ) (ds : List Delivery) (e : End)
    → length bytes ≡ default_buf_size
    → used ≤ default_buf_size
    → take used bytes ≡ v
    → Frames v ds e
    → ReadsTo e ds (after_callback bytes used (returned v e, ds))
unfolding after_callback
outcome bytes used v ds broken size le q f = refl
outcome bytes used v ds (rest r) size le q f =
    let (n, hn, tail) = Frames-tail f r refl in
    let len : length v ≡ used = omega (arith, ap length q, length-take used bytes) in
    let done : length v - length r ≡ n = omega (arith, ap length tail, length-drop n v) in
    rw done (settled bytes used n size le (omega arith) r ds (tail ∙ ap (drop n) (sym q)))

-- One read, by the packets in the bytes that wait and the new ones.
pub process_read-Frames :
    (b : Buffer) (w chunk : List ℕ) {ds : List Delivery} {e : End}
    → Holds b w
    → b.used + length chunk ≤ default_buf_size
    → Frames (w ++ chunk) ds e
    → (res : ReadResult) × (process_read b chunk ≡ some res) × ReadsTo e ds res
unfolding process_read
process_read-Frames b w chunk {ds = ds} {e = e} h fit f = (
  after_callback bytes used (returned (w ++ chunk) e, ds),
  ap (Option.map (after_callback bytes used)) (
      received_as bytes used (omega (arith, size)) (rw window f)
      ∙ ap (λ (v : List ℕ). some (returned v e, ds)) window),
  outcome bytes used (w ++ chunk) ds e size fit window f,
)
  where
    used : ℕ
    used = b.used + length chunk

    bytes : List ℕ
    bytes = take b.used b.bytes ++ (chunk ++ drop used b.bytes)

    size : length bytes ≡ default_buf_size
    size = omega (
      arith,
      length-append (take b.used b.bytes) (chunk ++ drop used b.bytes),
      length-append chunk (drop used b.bytes),
      length-take b.used b.bytes,
      length-drop used b.bytes,
      h.size,
      h.within,
    )

    window : take used bytes ≡ w ++ chunk
    window =
        ap (take used) (
          ap (λ (t : List ℕ). t ++ (chunk ++ drop used b.bytes)) h.window
          ∙ sym (append_assoc w chunk (drop used b.bytes)))
        ∙ take-append_exact used (w ++ chunk) (drop used b.bytes)
            (omega (arith, length-append w chunk, Holds-used h))
