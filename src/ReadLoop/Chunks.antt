-- ===== src/ReadLoop/Chunks.antt =====
-- The read loop over a whole connection: how the bytes are split into reads makes no difference, as
-- long as no packet is longer than the buffer.
use dsoftbus_go.Base.{
  ◌==◌, nat_eq, nat_beq_iff, if◌then◌else◌, true, false, ℕ, ◌+◌, ◌≤◌, ◌<◌, ◌≡◌, refl, ap, sym, ◌∙◌,
  arith, List, [], ◌∷◌, ◌++◌, append_assoc, append-nil, subst, length, length-append, length-drop,
  take, drop, some, inl, inr, ltb, Bool-cases, All, ltb→lt,
}
use dsoftbus_go.Receive.{Delivery, incomplete}
use dsoftbus_go.Receive.Frames.{
  next_frame, Frames, stop, more, End, rest, broken, Frames-append, Frames-deterministic,
  Frames-total, rest-injective,
}
use dsoftbus_go.Receive.Streams.{
  IsSendable, frame_bytes, stream, stream-Frames, next_frame-frame_bytes, next_frame_partial,
  drop-frame_bytes,
}
use dsoftbus_go.ReadLoop.{
  Buffer, ReadResult, continue, close_overflow, process_read, default_buf_size,
}
use dsoftbus_go.ReadLoop.Buffers.{Holds, Holds-used, ReadsTo, process_read-Frames}

-- The buffer that the loop starts with: 1536 bytes, whatever they are, and none in use.
abbrev pub IsFresh : Buffer → Type 0
IsFresh b = (length b.bytes ≡ default_buf_size) × (b.used ≡ 0)

-- A connection that is served: the bytes read so far and what was delivered.
pub data Run (b₀ : Buffer) : Buffer → List ℕ → List Delivery → Type 0 where
  opened : Run b₀ b₀ [] []
  read :
      {b b' : Buffer} {s : List ℕ} {ds ds' : List Delivery}
      → Run b₀ b s ds
      → (chunk : List ℕ) → 0 < length chunk
      → b.used + length chunk ≤ default_buf_size
      → process_read b chunk ≡ some (continue b' ds')
      → Run b₀ b' (s ++ chunk) (ds ++ ds')

empty_incomplete : next_frame [] ≡ incomplete
unfolding next_frame
empty_incomplete = refl

continue-injective :
    {b b' : Buffer} {ds ds' : List Delivery}
    → continue b ds ≡ continue b' ds'
    → (b ≡ b') × (ds ≡ ds')
continue-injective e = ground arith

some-injective : {r r' : ReadResult} → some r ≡ some r' → r ≡ r'
some-injective e = cc

-- A read that goes on has the outcome of the specification.
continued :
    (e : End) (ds ds' : List Delivery) (b' : Buffer) (res : ReadResult)
    → ReadsTo e ds res
    → res ≡ continue b' ds'
    → (r : List ℕ) × (e ≡ rest r) × (ds ≡ ds') × Holds b' r × (length r < default_buf_size)
continued broken ds ds' b' res t q = absurd (cc (t, q))
continued (rest r) ds ds' b' res (inl (short, b, p, h)) q =
    let same = continue-injective (sym p ∙ q) in (r, refl, same.1, rw same.0 at h, short)
continued (rest r) ds ds' b' res (inr (full, p)) q = absurd (cc (p, q))

grow :
    {s r r' : List ℕ} (chunk : List ℕ) {ds es ds' : List Delivery} {x : End}
    → Frames s ds (rest r)
    → Frames (r ++ chunk) es x
    → x ≡ rest r'
    → es ≡ ds'
    → Frames (s ++ chunk) (ds ++ ds') (rest r')
grow {r = r} chunk f g q same = rw (← same, ← q) (Frames-append f chunk r refl g)

-- What was delivered are the packets in the bytes read so far, and the buffer holds the rest.
pub Run-Frames :
    {b₀ b : Buffer} {s : List ℕ} {ds : List Delivery}
    → IsFresh b₀
    → Run b₀ b s ds
    → (r : List ℕ) × Frames s ds (rest r) × Holds b r × (length r < default_buf_size)
Run-Frames {b₀} fresh opened = (
  [],
  stop [] empty_incomplete,
  record {
    size = fresh.0;
    within = omega (arith, fresh.1);
    window = ap (λ (n : ℕ). take n b₀.bytes) fresh.1;
  },
  omega arith,
)
Run-Frames fresh (read {b} {b'} {s} {ds} {ds'} run chunk some_bytes fit e) =
    let (r, f, h, short) = Run-Frames fresh run in
    let (es, x, g) = Frames-total (length (r ++ chunk)) (r ++ chunk) (omega arith) in
    let (res, p, t) = process_read-Frames b r chunk h fit g in
    let (r', q, same, h', short') = continued x es ds' b' res t (some-injective (sym p ∙ e)) in
    (r', grow chunk f g q same, h', short')

-- Two ways to split a sequence: the shorter front is a front of the longer one.
align :
    (p t f g : List ℕ)
    → p ++ t ≡ f ++ g
    → length f ≤ length p
    → (p ≡ f ++ drop (length f) p) × (drop (length f) p ++ t ≡ g)
align p t [] g e h = (refl, e)
align [] t (x ∷ f) g e h = absurd (omega arith)
align (y ∷ p) t (x ∷ f) g e h =
    let (head, tail) = cons-injective e in
    let (front, back) = align p t f g tail (omega arith) in (cc (head, front), back)
  where
    cons-injective : {a b : ℕ} {xs ys : List ℕ} → a ∷ xs ≡ b ∷ ys → (a ≡ b) × (xs ≡ ys)
    cons-injective q = ground arith

-- A packet that the buffer can hold.
abbrev pub IsShort : Delivery → Type 0
IsShort d = length (frame_bytes d) ≤ default_buf_size

partial-Frames :
    (d : Delivery) (p t g : List ℕ)
    → IsSendable d
    → p ++ t ≡ frame_bytes d ++ g
    → length p < length (frame_bytes d)
    → Frames p [] (rest p)
partial-Frames d p t g v e h =
    let front = (align (frame_bytes d) g p t (sym e) (omega arith)).0 in
    stop p (
      next_frame_partial d v p (drop (length p) (frame_bytes d)) (sym front)
        (omega (arith, length-drop (length p) (frame_bytes d))))

-- A front of a sequence of packets ends in less than a buffer full of bytes.
front-Frames :
    (ps : List Delivery) (p t : List ℕ)
    → All IsSendable ps
    → All IsShort ps
    → p ++ t ≡ stream ps
    → (ds : List Delivery) × (r : List ℕ) × Frames p ds (rest r) × (length r < default_buf_size)
front-Frames [] [] t v b e = ([], [], stop [] empty_incomplete, omega arith)
front-Frames [] (x ∷ p) t v b e = absurd (cc e)
front-Frames (d ∷ ps) p t (v, vs) (b, bs) e =
    elim (Bool-cases (ltb (length p) (length (frame_bytes d)))) [
      | inl short ↦
          let lt : length p < length (frame_bytes d) = ltb→lt _ _ short in
          ([], p, partial-Frames d p t (stream ps) v e lt, omega arith)
      | inr long ↦
          let (front, back) = align p t (frame_bytes d) (stream ps) e (ground arith) in
          let tail : List ℕ = drop (length (frame_bytes d)) p in
          let (ds, r, f, lt) = front-Frames ps tail t vs bs back in
          (
            d ∷ ds,
            r,
            subst (λ (q : List ℕ). Frames q (d ∷ ds) (rest r)) (sym front)
                (more (frame_bytes d ++ tail) d (next_frame-frame_bytes d v tail)
                  (rw (drop-frame_bytes d v tail) f)),
            lt,
          )
    ]

goes_on :
    (x : End) (es : List Delivery) (r : List ℕ) (res : ReadResult)
    → ReadsTo x es res
    → x ≡ rest r
    → length r < default_buf_size
    → (b' : Buffer) × (res ≡ continue b' es)
goes_on broken es r res to q lt = absurd (cc q)
goes_on (rest r') es r res (inl (short, b, p, h)) q lt = (b, p)
goes_on (rest r') es r res (inr (full, p)) q lt =
    absurd (omega (arith, ap length (rest-injective q)))

-- On a connection that began with an empty buffer of 1536 bytes: while the bytes of packets that are good and
-- fit the buffer arrive, in whatever pieces the free part can take, the loop goes on
-- reading: it never takes a piece for a fault and never overflows.
pub never_closes :
    (b₀ b : Buffer) (s chunk t : List ℕ) (ds ps : List Delivery)
    → IsFresh b₀
    → Run b₀ b s ds
    → All IsSendable ps
    → All IsShort ps
    → (s ++ chunk) ++ t ≡ stream ps
    → b.used + length chunk ≤ default_buf_size
    → (b' : Buffer) × (ds' : List Delivery) × (process_read b chunk ≡ some (continue b' ds'))
never_closes b₀ b s chunk t ds ps fresh run v short e fit =
    let (r, f, h, lt) = Run-Frames fresh run in
    let (es, x, g) = Frames-total (length (r ++ chunk)) (r ++ chunk) (omega arith) in
    let (qs, r', f', lt') = front-Frames ps (s ++ chunk) t v short e in
    let (res, p, to) = process_read-Frames b r chunk h fit g in
    let q = (Frames-deterministic (Frames-append f chunk r refl g) f' refl).1 in
    let (b', same) = goes_on x es r' res to q lt' in (b', es, p ∙ ap some same)

-- On a connection that began with an empty buffer of 1536 bytes: when all bytes of packets with a good head,
-- fields in range and 1 byte to 64 KB have been read, all packets are delivered, each once and in order,
-- and the buffer is empty, in whatever pieces the bytes came.
pub delivers_in_full :
    (b₀ b : Buffer) (ds ps : List Delivery)
    → IsFresh b₀
    → Run b₀ b (stream ps) ds
    → All IsSendable ps
    → (ds ≡ ps) × (b.used ≡ 0)
delivers_in_full b₀ b ds ps fresh run v =
    let (r, f, h, lt) = Run-Frames fresh run in
    let g = stream-Frames ps [] v (stop [] empty_incomplete) in
    let (same, e) = Frames-deterministic f g (sym (append-nil (stream ps))) in
    (same ∙ append-nil ps, omega (arith, Holds-used h, ap length (rest-injective e)))

-- While a packet longer than the buffer is read, nothing is delivered and the buffer is not full.
oversize_waits :
    {b₀ b : Buffer} {s : List ℕ} {ds : List Delivery}
    → IsFresh b₀
    → Run b₀ b s ds
    → (d : Delivery) (t u : List ℕ) → IsSendable d
    → default_buf_size < length (frame_bytes d)
    → s ++ t ≡ frame_bytes d ++ u
    → (ds ≡ []) × (length s < default_buf_size)
oversize_waits fresh opened d t u v long e = (refl, omega arith)
oversize_waits fresh (read {b} {b'} {s} {ds} {ds'} run chunk some_bytes fit p) d t u v long e =
    let (none_yet, lt) =
      oversize_waits fresh run d (chunk ++ t) u v long (sym (append_assoc s chunk t) ∙ e) in
    let (r, f, h, _) = Run-Frames fresh run in
    let (r', f', h', lt') = Run-Frames fresh (read run chunk some_bytes fit p) in
    let whole =
      partial-Frames d s (chunk ++ t) u v (sym (append_assoc s chunk t) ∙ e) (omega arith) in
    let held = rest-injective (Frames-deterministic whole f refl).1 in
    let at_most : length (s ++ chunk) ≤ default_buf_size =
      omega (arith, length-append s chunk, ap length held, Holds-used h) in
    let now = Frames-deterministic (partial-Frames d (s ++ chunk) t u v e (omega arith)) f' refl in
    (sym now.0, omega (arith, ap length (rest-injective now.1)))

-- A read of bytes that hold no whole packet: the loop goes on, or the buffer is full and it ends.
filled_or_not :
    (r : List ℕ) (res : ReadResult)
    → ReadsTo (rest r) [] res
    → (b' : Buffer) × (res
        ≡ (if length r == default_buf_size then close_overflow [] else continue b' []))
filled_or_not r res (inl (short, b, p, h)) =
    let no : (length r == default_buf_size) ≡ false =
      ground (arith, nat_beq_iff (length r) default_buf_size, short) in
    (b, p ∙ rw no refl)
filled_or_not r res (inr (full, p)) =
    let yes_full : (length r == default_buf_size) ≡ true =
      (nat_beq_iff (length r) default_buf_size).1 full in
    (record { bytes = []; used = 0 }, p ∙ rw yes_full refl)

-- On a connection that began with an empty buffer of 1536 bytes, a packet with a good head and fields in
-- range that is longer than the buffer, at the front of what was sent, is never delivered, nor anything
-- behind it. After any reads that went on, nothing was delivered and fewer than 1536 bytes were read. The
-- next read, of any number of bytes that the free part takes, delivers nothing either: the loop goes on if
-- still fewer than 1536 bytes were read, and if it is 1536 it ends with an overflow.
pub oversize_never_delivered :
    {b₀ b : Buffer} {s : List ℕ} {ds : List Delivery}
    → IsFresh b₀
    → Run b₀ b s ds
    → (d : Delivery) (chunk t u : List ℕ) → IsSendable d
    → default_buf_size < length (frame_bytes d)
    → (s ++ chunk) ++ t ≡ frame_bytes d ++ u
    → b.used + length chunk ≤ default_buf_size
    → (ds ≡ [])
      × (length s < default_buf_size)
      × (b' : Buffer) × (process_read b chunk
          ≡ some (
              if length (s ++ chunk) == default_buf_size
              then close_overflow []
              else continue b' []))
oversize_never_delivered {b₀} {b} {s} {ds} fresh run d chunk t u v long e fit =
    let (none_yet, lt) =
      oversize_waits fresh run d (chunk ++ t) u v long (sym (append_assoc s chunk t) ∙ e) in
    let (r, f, h, _) = Run-Frames fresh run in
    let whole =
      partial-Frames d s (chunk ++ t) u v (sym (append_assoc s chunk t) ∙ e) (omega arith) in
    let held : s ≡ r = rest-injective (Frames-deterministic whole f refl).1 in
    let at_most : length (s ++ chunk) ≤ default_buf_size =
      omega (arith, length-append s chunk, ap length held, Holds-used h) in
    let now = partial-Frames d (s ++ chunk) t u v e (omega arith) in
    let (res, p, to) =
      process_read-Frames b s chunk (subst (λ (x : List ℕ). Holds b x) (sym held) h) fit now in
    let (b', same) = filled_or_not (s ++ chunk) res to in (none_yet, lt, b', p ∙ ap some same)
