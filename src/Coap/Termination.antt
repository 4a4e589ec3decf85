-- ===== src/Coap/Termination.antt =====
-- The decoder's loop over the options (parseOptionsAndPayload) ends: every turn takes a byte. What it gives is
-- a packet within the protocol's limits or an error of the code's own.
use dsoftbus_go.Base.{
  nat_beq_iff, ap, sym, subst, ◌∙◌, take, ℕ, zero, suc, ◌+◌, ◌/◌, ◌%◌, ◌^◌, ◌≡◌, ◌≤◌, ◌<◌, refl,
  arith, ◌==◌, nat_eq, ltb, leb, Bool, true, false, Bool-cases, List, [], ◌∷◌, length, length-drop,
  length-take, All, inl, inr, Result, ok, err, ◌>>=◌,
}
use Prim.Native.Nat.{bit_and}
use dsoftbus_go.Base.Bits.{bit_and_low}
use dsoftbus_go.Coap.{
  CoapHeader, CoapBuffer, CoapOption, CoapPacket, CoapError, header_invalid_short, ver_invalid,
  token_invalid_short, opt_invalid_big, opt_invalid_len, invalid_pkt, payload_marker, coap_version,
  coap_max_option, read_extended, read_value, read_option, read_options, parse_options_and_payload,
  decode,
}

-- The error codes that COAP_SoftBusDecode returns.
abbrev pub is_decode_error : CoapError → Bool
is_decode_error header_invalid_short = true
is_decode_error ver_invalid = true
is_decode_error token_invalid_short = true
is_decode_error opt_invalid_big = true
is_decode_error opt_invalid_len = true
is_decode_error invalid_pkt = true
is_decode_error _ = false

-- An option with its own length and a number of 16 bits.
abbrev pub IsReadOption : CoapOption → Type 0
IsReadOption o = (o.len ≡ length o.option_buf) × (o.num < 2 ^ 16)

abbrev pub IsMeasured : CoapBuffer → Type 0
IsMeasured b = b.len ≡ length b.buffer

-- Options and payload of a packet that a decoder may hand out.
pub record IsBody (pkt : CoapPacket) : Type 0 where
  pub few_options : length pkt.options ≤ 16
  pub options_ok : All IsReadOption pkt.options
  pub payload_ok : IsMeasured pkt.payload

pub record IsDecoded (pkt : CoapPacket) : Type 0 where
  pub version_ok : pkt.header.ver ≡ 1
  pub type_fits : pkt.header.msg_type < 4
  pub token_short : pkt.token.len ≤ 8
  pub token_said : pkt.header.token_len ≡ pkt.token.len
  pub token_ok : IsMeasured pkt.token
  pub body_ok : IsBody pkt

-- A result whose value has `P` and leaves at most so many bytes, or an error of the code's own.
abbrev Leaves : {A : Type 0} → (A → Type 0) → ℕ → Result CoapError (A × List ℕ) → Type 0
Leaves P n (ok (a, rest)) = P a × (length rest ≤ n)
Leaves P n (err e) = is_decode_error e ≡ true

abbrev pub Gives : {A : Type 0} → (A → Type 0) → Result CoapError A → Type 0
Gives P (ok a) = P a
Gives P (err e) = is_decode_error e ≡ true

abbrev Any : ℕ → Type 0
Any n = Unit {0}

read_extended-Leaves :
    (nib : ℕ) (bytes : List ℕ) → Leaves Any (length bytes) (read_extended nib bytes)
unfolding read_extended
read_extended-Leaves nib [] = ground arith
read_extended-Leaves nib (a ∷ []) = ground arith
read_extended-Leaves nib (a ∷ b ∷ rest) = ground arith

read_value-Leaves :
    (num len : ℕ) (bytes : List ℕ)
    → num < 2 ^ 16
    → Leaves IsReadOption (length bytes) (read_value num len bytes)
unfolding read_value
read_value-Leaves num len bytes h = elim (Bool-cases (ltb (length bytes) len)) [
  | inl cut ↦ rw (cut, read_value) refl
  | inr whole ↦
      let measured : len ≡ length (take len bytes) = ground (arith, length-take len bytes) in
      rw (whole, read_value) ((measured, h), omega (arith, length-drop len bytes))
]

bind-Leaves :
    {A B : Type 0} (P : A → Type 0) (Q : B → Type 0) (n : ℕ) (r : Result CoapError (A × List ℕ))
    (f : A × List ℕ → Result CoapError (B × List ℕ))
    → Leaves P n r
    → ((a : A) (rest : List ℕ) → P a → length rest ≤ n → Leaves Q n (f (a, rest)))
    → Leaves Q n (r >>= f)
bind-Leaves P Q n (ok (a, rest)) f (p, h) g = g a rest p h
bind-Leaves P Q n (err e) f h g = h

weaken :
    {A : Type 0} (P : A → Type 0) (n k : ℕ) (r : Result CoapError (A × List ℕ))
    → Leaves P n r
    → n ≤ k
    → Leaves P k r
weaken P n k (ok (a, rest)) (p, h) l = (p, omega (arith, h, l))
weaken P n k (err e) h l = h

read_option-Leaves :
    (prev h : ℕ) (bytes : List ℕ) → Leaves IsReadOption (length bytes) (read_option prev h bytes)
unfolding read_option
read_option-Leaves prev h bytes =
    bind-Leaves Any IsReadOption (length bytes) _ _
      (read_extended-Leaves (bit_and (h / 2 ^ 4) 0x0F) bytes)
      (λ delta rest p le.
        bind-Leaves Any IsReadOption (length bytes) _ _
          (weaken Any (length rest) (length bytes) _ (read_extended-Leaves (bit_and h 0x0F) rest)
            le)
          (λ len rest' p' le'.
            weaken IsReadOption (length rest') (length bytes) _
              (read_value-Leaves ((prev + delta) % 2 ^ 16) len rest' (omega arith)) le'))

bind-Gives :
    {A B : Type 0} (P : A → Type 0) (Q : B → Type 0) (r : Result CoapError A)
    (f : A → Result CoapError B)
    → Gives P r
    → ((a : A) → P a → Gives Q (f a))
    → Gives Q (r >>= f)
bind-Gives P Q (ok a) f h g = g a h
bind-Gives P Q (err e) f h g = h

Leaves-Gives :
    {A B : Type 0} (P : A → Type 0) (Q : B → Type 0) (n : ℕ) (r : Result CoapError (A × List ℕ))
    (f : A × List ℕ → Result CoapError B)
    → Leaves P n r
    → ((a : A) (rest : List ℕ) → P a → length rest ≤ n → Gives Q (f (a, rest)))
    → Gives Q (r >>= f)
Leaves-Gives P Q n (ok (a, rest)) f (p, h) g = g a rest p h
Leaves-Gives P Q n (err e) f h g = h

-- What the loop over the options finds when it has found `seen` options before.
abbrev IsFound : ℕ → List CoapOption × List ℕ → Type 0
IsFound seen found = (seen + length found.0 ≤ 16) × All IsReadOption found.0

read_options-Gives :
    (fuel prev seen : ℕ) (bytes : List ℕ)
    → length bytes ≤ fuel
    → seen ≤ 16
    → Gives (IsFound seen) (read_options fuel prev seen bytes)
unfolding read_options
read_options-Gives fuel prev seen [] h l = (omega (arith, l), tt)
read_options-Gives zero prev seen (b ∷ bytes) h l = absurd (omega (arith, h))
read_options-Gives (suc fuel) prev seen (b ∷ bytes) h l = elim (Bool-cases (b == payload_marker)) [
  | inl hit ↦ rw (hit, read_options) (omega (arith, l), tt)
  | inr miss ↦ elim (Bool-cases (leb coap_max_option seen)) [
    | inl full ↦ rw (miss, full, read_options) refl
    | inr few ↦
        let room : seen + 1 ≤ 16 = ground arith in
        rw (miss, few, read_options)
          (Leaves-Gives IsReadOption (IsFound seen) (length bytes) _ _
            (read_option-Leaves prev b bytes)
            (λ opt rest p le.
              bind-Gives (IsFound (seen + 1)) (IsFound seen) _ _
                (read_options-Gives fuel opt.num (seen + 1) rest (omega (arith, h, le)) room)
                (λ found q. (omega (arith, q.0), (p, q.1)))))
  ]
]

parse-Gives :
    (pkt : CoapPacket) (bytes : List ℕ)
    → IsBody pkt
    → ((p : CoapPacket) → IsBody p → p.header ≡ pkt.header → p.token ≡ pkt.token → IsDecoded p)
    → Gives IsDecoded (parse_options_and_payload pkt bytes)
unfolding parse_options_and_payload
parse-Gives pkt [] v g = g pkt v refl refl
parse-Gives pkt (b ∷ bytes) v g =
    bind-Gives (IsFound 0) IsDecoded _ _
      (read_options-Gives (length (b ∷ bytes)) 0 0 (b ∷ bytes) (omega arith) (omega arith))
      (λ found q.
        g _
          (record {
            few_options = omega (arith, q.0);
            options_ok = q.1;
            payload_ok = elim (Bool-cases (length found.1 == 0)) [
              | inl e ↦ rw e v.payload_ok
              | inr e ↦ rw e refl
            ];
          })
          refl refl)

-- Take any bytes and a packet to decode them into, whose options are at most 16 with their own lengths and
-- 16-bit numbers, and whose payload has its own length. COAP_SoftBusDecode ends, without a panic and within
-- the model's fuel. Either it returns one of its six error codes, or a packet of version 1 whose type is below
-- 4, whose token has the length that the head says, at most 8, and is there in full, with at most 16
-- options, each with its own length and a 16-bit number, and a payload with its own length.
pub decode_terminates :
    (pkt : CoapPacket) (bytes : List ℕ) → IsBody pkt → Gives IsDecoded (decode pkt bytes)
unfolding decode
decode_terminates pkt [] v = refl
decode_terminates pkt (a ∷ []) v = refl
decode_terminates pkt (a ∷ b ∷ []) v = refl
decode_terminates pkt (a ∷ b ∷ c ∷ []) v = refl
decode_terminates pkt (a ∷ b ∷ c ∷ d ∷ bytes) v =
    elim (Bool-cases (bit_and (a / 2 ^ 6) 0x03 == coap_version)) [
      | inr other ↦ rw (other, decode) refl
      | inl known ↦ elim (Bool-cases (ltb 8 (bit_and a 0x0F))) [
        | inl long ↦ rw (known, long, decode) refl
        | inr short ↦ elim (Bool-cases (ltb (length bytes) (bit_and a 0x0F))) [
          | inl cut ↦ rw (known, short, cut, decode) refl
          | inr whole ↦
              rw (known, short, whole, decode)
                (parse-Gives _ _
                  (record {
                    few_options = v.few_options;
                    options_ok = v.options_ok;
                    payload_ok = v.payload_ok;
                  })
                  (λ p body eh et. record {
                    version_ok = ap (λ (x : CoapHeader). x.ver) eh ∙ (nat_beq_iff _ _).0 known;
                    type_fits =
                        omega (
                          arith,
                          ap (λ (x : CoapHeader). x.msg_type) eh,
                          bit_and_low 2 (a / 2 ^ 4),
                        );
                    token_short = let size = ap (λ (x : CoapBuffer). x.len) et in ground arith;
                    token_said =
                        ap (λ (x : CoapHeader). x.token_len) eh
                        ∙ sym (ap (λ (x : CoapBuffer). x.len) et);
                    token_ok =
                        let there : bit_and a 0x0F ≤ length bytes = ground arith in
                        subst IsMeasured (sym et)
                          (omega (arith, there, length-take (bit_and a 0x0F) bytes));
                    body_ok = body;
                  }))
        ]
      ]
    ]
