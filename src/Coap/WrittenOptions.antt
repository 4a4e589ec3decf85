-- ===== src/Coap/WrittenOptions.antt =====
-- The options of coap_adapter.go: what the encoder's loop writes.
use dsoftbus_go.Base.{
  ℕ, zero, suc, ◌+◌, ◌*◌, ◌^◌, ◌≡◌, refl, ap, sym, ◌∙◌, arith, nat_eq, ltb, leb, Bool-cases, List,
  [], ◌∷◌, ◌++◌, length, append_assoc, append-nil, take, All, inl, inr, Result, ok, err, ◌>>=◌,
}
use dsoftbus_go.Coap.{
  CoapOption, CoapError, write_byte, write_bytes, extended, slice, option_delta, write_option,
  write_options,
}
use dsoftbus_go.Coap.Options.{IsOption, option_bytes, options_bytes, extended-lt, head_byte}

-- What a step that succeeds wrote.
pub bind-ok :
    {A B : Type 0} (r : Result CoapError A) (f : A → Result CoapError B) (b : B)
    → (r >>= f) ≡ ok b
    → (a : A) × (r ≡ ok a) × (f a ≡ ok b)
bind-ok (ok a) f b e = (a, refl, e)
bind-ok (err x) f b e = absurd (cc e)

pub write_bytes-ok :
    (cap : ℕ) (bytes out r : List ℕ) → write_bytes cap bytes out ≡ ok r → r ≡ out ++ bytes
unfolding write_bytes
write_bytes-ok cap bytes out r e = elim (Bool-cases (ltb cap (length out + length bytes))) [
  | inl full ↦ absurd (cc (rw (full, write_bytes) at e))
  | inr room ↦ let e' = rw (room, write_bytes) at e in cc
]

pub write_byte-ok : (cap b : ℕ) (out r : List ℕ) → write_byte cap b out ≡ ok r → r ≡ out ++ b ∷ []
unfolding write_byte
write_byte-ok cap b out r e = elim (Bool-cases (leb cap (length out))) [
  | inl full ↦ absurd (cc (rw (full, write_byte) at e))
  | inr room ↦ let e' = rw (room, write_byte) at e in cc
]

pub take_all : (n : ℕ) (l : List ℕ) → n ≡ length l → take n l ≡ l
take_all zero [] h = refl
take_all zero (x ∷ l) h = absurd (omega (arith, h))
take_all (suc n) [] h = absurd (omega (arith, h))
take_all (suc n) (x ∷ l) h = ap (◌∷◌ x) (take_all n l (omega (arith, h)))

pub slice-ok :
    (buffer r : List ℕ) (len : ℕ) → slice buffer len ≡ ok r → len ≡ length buffer → r ≡ buffer
unfolding slice
slice-ok buffer r len e h =
    let whole : take len buffer ≡ buffer = take_all len buffer h in
    elim (Bool-cases (ltb (length buffer) len)) [
      | inl over ↦ absurd (cc (rw (over, slice) at e))
      | inr fits ↦ let e' = rw (fits, slice) at e in cc (e', whole)
    ]

regroup : (o a b c v : List ℕ) → ((((o ++ a) ++ b) ++ c) ++ v) ≡ o ++ (a ++ (b ++ (c ++ v)))
regroup o a b c v = rw (append_assoc, append_assoc, append_assoc) refl

-- The bytes that one option adds.
pub option_written :
    (cap prev : ℕ) (opt : CoapOption) (out r : List ℕ)
    → opt.len ≡ length opt.option_buf
    → write_option cap prev opt out ≡ ok r
    → r ≡ out ++ option_bytes prev opt
unfolding write_option
option_written cap prev opt out r h e =
    let d = extended (option_delta prev opt.num) in
    let l = extended opt.len in
    let (head, _, _, _) =
      head_byte d.0 l.0 (extended-lt (option_delta prev opt.num)) (extended-lt opt.len) in
    let (c, ec, last) = bind-ok _ _ r e in
    let (b, eb, e3) = bind-ok _ _ c ec in
    let (a, ea, e2) = bind-ok _ _ b eb in
    let (value, ev, e4) = bind-ok _ _ r last in
    let first : a ≡ out ++ (d.0 * 2 ^ 4 + l.0) ∷ [] =
      write_byte-ok cap _ out a ea ∙ ap (λ (x : ℕ). out ++ x ∷ []) head in
    let written = write_bytes-ok cap l.1 b c e3 in
    let joined : c ≡ ((out ++ (d.0 * 2 ^ 4 + l.0) ∷ []) ++ d.1) ++ l.1 =
      written
      ∙ ap (λ (x : List ℕ). x ++ l.1)
          (write_bytes-ok cap d.1 a b e2 ∙ ap (λ (x : List ℕ). x ++ d.1) first) in
    write_bytes-ok cap value c r e4
    ∙ ap (λ (x : List ℕ). c ++ x) (slice-ok opt.option_buf value opt.len ev h)
    ∙ ap (λ (x : List ℕ). x ++ opt.option_buf) joined
    ∙ regroup out ((d.0 * 2 ^ 4 + l.0) ∷ []) d.1 l.1 opt.option_buf

same_ok : {a b : List ℕ} → ◌≡◌ {A = Result CoapError (List ℕ)} (ok a) (ok b) → a ≡ b
same_ok e = cc

-- The bytes that the encoder's loop over the options adds.
pub write_options-ok :
    (cap n prev : ℕ) (opts : List CoapOption) (out r : List ℕ)
    → n ≡ length opts
    → All IsOption opts
    → write_options cap n prev opts out ≡ ok r
    → r ≡ out ++ options_bytes prev opts
unfolding write_options
write_options-ok cap zero prev [] out r hn ho e = sym (append-nil out ∙ same_ok e)
write_options-ok cap zero prev (opt ∷ opts) out r hn ho e = absurd (omega (arith, hn))
write_options-ok cap (suc n) prev [] out r hn ho e = absurd (omega (arith, hn))
write_options-ok cap (suc n) prev (opt ∷ opts) out r hn (h, ho) e =
    let (b, eb, rest) = bind-ok _ _ r e in
    write_options-ok cap n opt.num opts b r (omega (arith, hn)) ho rest
    ∙ ap (λ (x : List ℕ). x ++ options_bytes opt.num opts)
        (option_written cap prev opt out b h.1 eb)
    ∙ append_assoc out (option_bytes prev opt) (options_bytes opt.num opts)
