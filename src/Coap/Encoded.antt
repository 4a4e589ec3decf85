-- ===== src/Coap/Encoded.antt =====
-- What COAP_SoftBusEncode (coap_adapter.go) writes for a message.
use Prim.Native.Nat.{bit_and, bit_or}
use dsoftbus_go.Base.{
  ℕ, ◌+◌, ◌*◌, ◌/◌, ◌%◌, ◌^◌, ◌≡◌, ◌≤◌, ◌<◌, refl, ap, sym, ◌∙◌, arith, ◌==◌, nat_eq, nat_beq_iff,
  ltb, Bool-cases, List, [], ◌∷◌, ◌++◌, length, append_assoc, append-nil, All, inl, inr, Result, ok,
}
use dsoftbus_go.Base.Bytes.{be16_put}
use dsoftbus_go.Base.Bits.{bit_and_low, bit_or_join}
use dsoftbus_go.Coap.{
  CoapBuffer, CoapPacketParam, CoapError, payload_marker, coap_version, coap_max_option, write_head,
  write_message, write_payload, encode,
}
use dsoftbus_go.Coap.Options.{IsOption, options_bytes, marked}
use dsoftbus_go.Coap.WrittenOptions.{
  bind-ok, write_bytes-ok, write_byte-ok, slice-ok, write_options-ok,
}

-- The fields are in the range of their types, every length is its buffer's, and the options fit a packet.
pub record IsMessage (param : CoapPacketParam) (token payload : CoapBuffer) : Type 0 where
  pub type_fits : param.msg_type < 4
  pub code_fits : param.code < 256
  pub id_fits : param.msg_id < 2 ^ 16
  pub token_len : token.len ≡ length token.buffer
  pub token_fits : token.len < 256
  pub options_len : param.options_num ≡ length param.options
  pub options_fit : length param.options ≤ coap_max_option
  pub options_ok : All IsOption param.options
  pub payload_len : payload.len ≡ length payload.buffer

abbrev pub message_bytes : CoapPacketParam → CoapBuffer → CoapBuffer → List ℕ
message_bytes param token payload =
    (2 ^ 6 + param.msg_type * 2 ^ 4 + token.len)
      ∷ param.code
      ∷ param.msg_id / 256 % 256
      ∷ param.msg_id % 256
      ∷ token.buffer
    ++ (options_bytes 0 param.options ++ marked payload.buffer)

marked_nil : (l : List ℕ) → length l ≡ 0 → marked l ≡ []
marked_nil [] h = refl
marked_nil (b ∷ l) h = absurd (omega (arith, h))

pub marked_some : (l : List ℕ) → 0 < length l → marked l ≡ payload_marker ∷ l
marked_some [] h = absurd (omega (arith, h))
marked_some (b ∷ l) h = refl

same_ok : {a b : List ℕ} → ◌≡◌ {A = Result CoapError (List ℕ)} (ok a) (ok b) → a ≡ b
same_ok e = cc

payload_written :
    (cap : ℕ) (payload : CoapBuffer) (out r : List ℕ)
    → payload.len ≡ length payload.buffer
    → write_payload cap payload out ≡ ok r
    → r ≡ out ++ marked payload.buffer
unfolding write_payload
payload_written cap payload out r h e = elim (Bool-cases (payload.len == 0)) [
  | inl zero_len ↦
      let none_left : marked payload.buffer ≡ [] =
        marked_nil payload.buffer (ground (arith, nat_beq_iff payload.len 0, h)) in
      rw none_left (sym (append-nil out ∙ same_ok (rw (zero_len, write_payload) at e)))
  | inr some_len ↦
      let e' = rw (some_len, write_payload) at e in
      let (a, ea, last) = bind-ok _ _ r e' in
      let (bytes, eb, e2) = bind-ok _ _ r last in
      let put : marked payload.buffer ≡ payload_marker ∷ payload.buffer =
        marked_some payload.buffer (ground (arith, nat_beq_iff payload.len 0, h)) in
      rw put (
        write_bytes-ok cap bytes a r e2
        ∙ ap (λ (x : List ℕ). a ++ x) (slice-ok payload.buffer bytes payload.len eb h)
        ∙ ap (λ (x : List ℕ). x ++ payload.buffer) (write_byte-ok cap payload_marker out a ea)
        ∙ append_assoc out (payload_marker ∷ []) payload.buffer)
]

pub first_byte :
    (t n : ℕ)
    → t < 4
    → n ≤ 8
    → let b = 2 ^ 6 + t * 2 ^ 4 + n in
      (bit_or (bit_or (coap_version * 2 ^ 6 % 256) (t * 2 ^ 4 % 256)) n ≡ b)
      × (bit_and (b / 2 ^ 6) 0x03 ≡ coap_version)
      × (bit_and (b / 2 ^ 4) 0x03 ≡ t)
      × (bit_and b 0x0F ≡ n)
first_byte t n ht hn =
    let small : t * 2 ^ 4 % 256 ≡ t * 2 ^ 4 = omega arith in
    let join : bit_or (1 * 2 ^ 6) (t * 2 ^ 4) ≡ (4 + t) * 2 ^ 4 =
      bit_or_join 6 1 (t * 2 ^ 4) (omega arith) ∙ omega arith in
    (
      rw (small, join) (bit_or_join 4 (4 + t) n (omega arith) ∙ omega arith),
      bit_and_low 2 ((2 ^ 6 + t * 2 ^ 4 + n) / 2 ^ 6) ∙ omega arith,
      bit_and_low 2 ((2 ^ 6 + t * 2 ^ 4 + n) / 2 ^ 4) ∙ omega arith,
      bit_and_low 4 (2 ^ 6 + t * 2 ^ 4 + n) ∙ omega arith,
    )

head_written :
    (cap : ℕ) (param : CoapPacketParam) (n : ℕ) (r : List ℕ)
    → param.msg_type < 4
    → param.code < 256
    → n ≤ 8
    → write_head cap n param ≡ ok r
    → r
      ≡ (2 ^ 6 + param.msg_type * 2 ^ 4 + n)
        ∷ param.code
        ∷ param.msg_id / 256 % 256
        ∷ param.msg_id % 256
        ∷ []
unfolding write_head be16_put
head_written cap param n r ht hc hn e =
    let (b, eb, e3) = bind-ok _ _ r e in
    let (a, ea, e2) = bind-ok _ _ b eb in
    let code : param.code % 256 ≡ param.code = omega (arith, hc) in
    write_bytes-ok cap _ b r e3
    ∙ ap (λ (x : List ℕ). x ++ be16_put param.msg_id)
        (write_byte-ok cap _ a b e2
          ∙ ap (λ (x : List ℕ). x ++ param.code % 256 ∷ [])
              (write_byte-ok cap _ [] a ea
                ∙ ap (λ (x : ℕ). x ∷ []) (first_byte param.msg_type n ht hn).0)
          ∙ ap (λ (x : ℕ). (2 ^ 6 + param.msg_type * 2 ^ 4 + n) ∷ x ∷ []) code)

pub message_written :
    (param : CoapPacketParam) (token payload : CoapBuffer) (cap : ℕ) (r : List ℕ)
    → IsMessage param token payload
    → token.len ≤ 8
    → write_message cap token.len param token payload ≡ ok r
    → r ≡ message_bytes param token payload
unfolding write_message
message_written param token payload cap r m small e =
    let (head, eh, rest) = bind-ok _ _ r e in
    let (bytes, et, rest') = bind-ok _ _ r rest in
    let (c, ec, last) = bind-ok _ _ r rest' in
    let (b, eb, e3) = bind-ok _ _ c ec in
    payload_written cap payload c r m.payload_len last
    ∙ ap (λ (x : List ℕ). x ++ marked payload.buffer)
        (write_options-ok cap param.options_num 0 param.options b c m.options_len m.options_ok e3
          ∙ ap (λ (x : List ℕ). x ++ options_bytes 0 param.options)
              (write_bytes-ok cap bytes head b eb
                ∙ ap (λ (x : List ℕ). head ++ x)
                    (slice-ok token.buffer bytes token.len et m.token_len)))
    ∙ append_assoc (head ++ token.buffer) (options_bytes 0 param.options) (marked payload.buffer)
    ∙ append_assoc head token.buffer (options_bytes 0 param.options ++ marked payload.buffer)
    ∙ ap
        (λ (x : List ℕ).
          x ++ (token.buffer ++ (options_bytes 0 param.options ++ marked payload.buffer)))
        (head_written cap param token.len head m.type_fits m.code_fits small eh)

-- A message that COAP_SoftBusEncode accepts is its head, its token, its options and its marked payload.
pub encode-message_bytes :
    (param : CoapPacketParam) (token payload : CoapBuffer) (cap : ℕ) (r : List ℕ)
    → IsMessage param token payload
    → encode param token payload cap ≡ ok r
    → (token.len ≤ 8) × (r ≡ message_bytes param token payload)
unfolding encode
encode-message_bytes param token payload cap r m e =
    let n : token.len % 256 ≡ token.len = omega (arith, m.token_fits) in
    elim (Bool-cases (ltb 8 token.len)) [
      | inl long ↦ absurd (cc (rw (n, long, encode) at e))
      | inr short ↦ (
        ground (arith, short),
        message_written param token payload cap r m (ground (arith, short))
            (rw (n, short, encode) at e),
      )
    ]
