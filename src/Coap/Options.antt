-- ===== src/Coap/Options.antt =====
-- The options of coap_adapter.go: what the encoder writes for them, and that the decoder reads it back.
use Prim.Native.Nat.{bit_and, bit_or}
use dsoftbus_go.Base.{
  ℕ, zero, suc, ◌+◌, ◌*◌, ◌/◌, ◌%◌, ◌^◌, ◌≡◌, ◌≢◌, ◌≤◌, ◌<◌, refl, ap, sym, ◌∙◌, arith, ◌==◌,
  nat_eq, nat_beq_iff, ltb, leb, false, Bool-cases, List, [], ◌∷◌, ◌++◌, length, length-append,
  append_assoc, take-append_exact, drop-append_exact, All, inl, inr, Result, ok,
}
use dsoftbus_go.Base.Bytes.{be16_put}
use dsoftbus_go.Base.Bits.{bit_and_low, bit_or_join}
use dsoftbus_go.Coap.{
  CoapOption, CoapError, payload_marker, coap_max_option, extended, option_delta, read_extended,
  read_value, read_option, read_options,
}

-- The fields are in the range of their types, the length is the value's, and it fits an extended length.
abbrev pub IsOption : CoapOption → Type 0
IsOption opt = (opt.num < 2 ^ 16) × (opt.len ≡ length opt.option_buf) × (opt.len < 269 + 2 ^ 16)

abbrev pub option_bytes : ℕ → CoapOption → List ℕ
option_bytes prev opt =
    let d = extended (option_delta prev opt.num) in
    let l = extended opt.len in (d.0 * 2 ^ 4 + l.0) ∷ d.1 ++ (l.1 ++ opt.option_buf)

abbrev pub options_bytes : ℕ → List CoapOption → List ℕ
options_bytes prev [] = []
options_bytes prev (opt ∷ opts) = option_bytes prev opt ++ options_bytes opt.num opts

pub extended-lt : (v : ℕ) → (extended v).0 < 15
unfolding extended
extended-lt v = ground arith

same_value :
    {a b : ℕ} (r : List ℕ) → a ≡ b → ◌≡◌ {A = Result CoapError (ℕ × List ℕ)} (ok (a, r)) (ok (b, r))
same_value r e = ap (λ (x : ℕ). ok (x, r)) e

read_extended-extended :
    (v : ℕ) (r : List ℕ)
    → v < 269 + 2 ^ 16
    → read_extended (extended v).0 ((extended v).1 ++ r) ≡ ok (v, r)
unfolding extended read_extended be16_put
read_extended-extended v r h = elim (Bool-cases (ltb v 13)) [
  | inl small ↦ rw small (ground (arith, small))
  | inr not_small ↦ elim (Bool-cases (ltb v (13 + 256))) [
    | inl one ↦ rw (not_small, one) (same_value r (ground (arith, not_small)))
    | inr two ↦ rw (not_small, two) (same_value r (ground (arith, two)))
  ]
]

-- The head byte and its two nibbles.
pub head_byte :
    (d l : ℕ)
    → d < 15
    → l < 15
    → (bit_or (d * 2 ^ 4 % 256) l ≡ d * 2 ^ 4 + l)
      × (bit_and ((d * 2 ^ 4 + l) / 2 ^ 4) 0x0F ≡ d)
      × (bit_and (d * 2 ^ 4 + l) 0x0F ≡ l)
      × (d * 2 ^ 4 + l ≢ payload_marker)
head_byte d l hd hl =
    let small : d * 2 ^ 4 % 256 ≡ d * 2 ^ 4 = omega arith in
    (
      rw small (bit_or_join 4 d l (omega arith)),
      bit_and_low 4 ((d * 2 ^ 4 + l) / 2 ^ 4) ∙ omega arith,
      bit_and_low 4 (d * 2 ^ 4 + l) ∙ omega arith,
      λ e. omega arith,
    )

value_back :
    (opt : CoapOption) (r : List ℕ)
    → opt.len ≡ length opt.option_buf
    → read_value opt.num opt.len (opt.option_buf ++ r) ≡ ok (opt, r)
unfolding read_value
value_back opt r h =
    let fits : ltb (length (opt.option_buf ++ r)) opt.len ≡ false =
      ground (arith, length-append opt.option_buf r) in
    rw
      (
        fits,
        take-append_exact opt.len opt.option_buf r (sym h),
        drop-append_exact opt.len opt.option_buf r (sym h),
      )
      refl

-- The decoder reads back the option that the bytes are of.
pub read_option-option_bytes :
    (prev : ℕ) (opt : CoapOption) (r : List ℕ)
    → prev < 2 ^ 16
    → IsOption opt
    → let d = extended (option_delta prev opt.num) in
      let l = extended opt.len in
      read_option prev (d.0 * 2 ^ 4 + l.0) ((d.1 ++ (l.1 ++ opt.option_buf)) ++ r) ≡ ok (opt, r)
unfolding read_option
read_option-option_bytes prev opt r hp (hn, hl, hs) =
    let delta = option_delta prev opt.num in
    let d = extended delta in
    let l = extended opt.len in
    let (_, high, low, _) = head_byte d.0 l.0 (extended-lt delta) (extended-lt opt.len) in
    let back : (prev + delta) % 2 ^ 16 ≡ opt.num = omega (arith, hp, hn) in
    rw
      (
        read_option,
        high,
        low,
        append_assoc d.1 (l.1 ++ opt.option_buf) r,
        read_extended-extended delta ((l.1 ++ opt.option_buf) ++ r) (omega arith),
      )
      (rw
        (append_assoc l.1 opt.option_buf r, read_extended-extended opt.len (opt.option_buf ++ r) hs)
        (rw (back, value_back opt r hl) refl))

abbrev pub marked : List ℕ → List ℕ
marked [] = []
marked (b ∷ bs) = payload_marker ∷ b ∷ bs

-- The options are read back, and what is left is the payload.
pub read_options-options_bytes :
    (fuel prev seen : ℕ) (opts : List CoapOption) (payload : List ℕ)
    → prev < 2 ^ 16
    → All IsOption opts
    → seen + length opts ≤ coap_max_option
    → length opts < fuel
    → read_options fuel prev seen (options_bytes prev opts ++ marked payload) ≡ ok (opts, payload)
unfolding read_options
read_options-options_bytes zero prev seen opts payload hp ho hs hf = absurd (omega (arith, hf))
read_options-options_bytes (suc fuel) prev seen [] [] hp ho hs hf = refl
read_options-options_bytes (suc fuel) prev seen [] (b ∷ bs) hp ho hs hf = refl
read_options-options_bytes (suc fuel) prev seen (opt ∷ opts) payload hp (h, ho) hs hf =
    let d = extended (option_delta prev opt.num) in
    let l = extended opt.len in
    let (_, _, _, no_marker) =
      head_byte d.0 l.0 (extended-lt (option_delta prev opt.num)) (extended-lt opt.len) in
    let is_option : (d.0 * 2 ^ 4 + l.0 == payload_marker) ≡ false =
      ground (arith, nat_beq_iff (d.0 * 2 ^ 4 + l.0) payload_marker, no_marker) in
    let few : leb coap_max_option seen ≡ false = ground (arith, hs) in
    let rest = options_bytes opt.num opts ++ marked payload in
    rw (append_assoc (d.1 ++ (l.1 ++ opt.option_buf)) (options_bytes opt.num opts) (marked payload))
      (rw (read_options, is_option, few, read_option-option_bytes prev opt rest hp h)
        (rw
          (read_options-options_bytes fuel opt.num (seen + 1) opts payload h.0 ho
            (omega (arith, hs)) (omega (arith, hf)))
          refl))

pub length-options_bytes :
    (prev : ℕ) (opts : List CoapOption) → length opts ≤ length (options_bytes prev opts)
length-options_bytes prev [] = omega arith
length-options_bytes prev (opt ∷ opts) = omega (
  arith,
  length-options_bytes opt.num opts,
  length-append (option_bytes prev opt) (options_bytes opt.num opts),
)
