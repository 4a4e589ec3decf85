-- ===== src/Coap/Capacity.antt =====
-- COAP_SoftBusEncode writes every message that its buffer has room for.
use Prim.Native.Nat.{bit_or}
use dsoftbus_go.Base.{
  ℕ, zero, suc, ◌+◌, ◌*◌, ◌%◌, ◌^◌, ◌≡◌, ◌≤◌, ◌<◌, refl, ap, sym, ◌∙◌, arith, ◌==◌, nat_eq,
  nat_beq_iff, ltb, false, Bool-cases, List, [], ◌∷◌, ◌++◌, length, length-append, append_assoc,
  append-nil, All, inl, inr, Result, ok, ◌>>=◌,
}
use dsoftbus_go.Base.Bytes.{be16_put}
use dsoftbus_go.Coap.{
  CoapOption, CoapBuffer, CoapPacketParam, CoapError, payload_marker, coap_version, write_byte,
  write_bytes, slice, extended, option_delta, write_option, write_options, write_payload,
  write_head, write_message, encode,
}
use dsoftbus_go.Coap.Options.{IsOption, option_bytes, options_bytes, marked}
use dsoftbus_go.Coap.WrittenOptions.{take_all, option_written}
use dsoftbus_go.Coap.Encoded.{IsMessage, message_bytes, message_written}

-- A step that can only fail when its bytes do not fit.
wrote :
    (cap : ℕ) (bytes out : List ℕ)
    → length out + length bytes ≤ cap
    → write_bytes cap bytes out ≡ ok (out ++ bytes)
unfolding write_bytes
wrote cap bytes out h = ground (arith, h)

wrote_byte :
    (cap b : ℕ) (out : List ℕ) → length out + 1 ≤ cap → write_byte cap b out ≡ ok (out ++ b ∷ [])
unfolding write_byte
wrote_byte cap b out h = ground (arith, h)

sliced : (buffer : List ℕ) (len : ℕ) → len ≡ length buffer → slice buffer len ≡ ok buffer
unfolding slice
sliced buffer len h = ground (arith, h, take_all len buffer h)

then_ok :
    {A B : Type 0} (r : Result CoapError A) (f : A → Result CoapError B) {a : A} {b : B}
    → r ≡ ok a
    → f a ≡ ok b
    → (r >>= f) ≡ ok b
then_ok r f e e' = rw e e'

option_fits :
    (cap prev : ℕ) (opt : CoapOption) (out : List ℕ)
    → opt.len ≡ length opt.option_buf
    → length out + length (option_bytes prev opt) ≤ cap
    → write_option cap prev opt out ≡ ok (out ++ option_bytes prev opt)
unfolding write_option
option_fits cap prev opt out h room =
    let d = extended (option_delta prev opt.num) in
    let l = extended opt.len in
    let b0 = bit_or (d.0 * 2 ^ 4 % 256) l.0 in
    let o1 = out ++ b0 ∷ [] in
    let o2 = o1 ++ d.1 in
    let o3 = o2 ++ l.1 in
    let size : length d.1 + (length l.1 + length opt.option_buf) + 1 + length out ≤ cap =
      omega (
        arith,
        room,
        length-append d.1 (l.1 ++ opt.option_buf),
        length-append l.1 opt.option_buf,
      ) in
    let s1 : length o1 ≡ length out + 1 = length-append out (b0 ∷ []) ∙ refl in
    let s2 : length o2 ≡ length o1 + length d.1 = length-append o1 d.1 in
    let s3 : length o3 ≡ length o2 + length l.1 = length-append o2 l.1 in
    let done : write_option cap prev opt out ≡ ok (o3 ++ opt.option_buf) =
      then_ok _ _
        (then_ok _ _
          (then_ok _ _ (wrote_byte cap b0 out (omega (arith, size)))
            (wrote cap d.1 o1 (omega (arith, size, s1))))
          (wrote cap l.1 o2 (omega (arith, size, s1, s2))))
        (then_ok _ _ (sliced opt.option_buf opt.len h)
          (wrote cap opt.option_buf o3 (omega (arith, size, s1, s2, s3)))) in
    done ∙ ap (λ (x : List ℕ). ok x) (option_written cap prev opt out (o3 ++ opt.option_buf) h done)

options_fit_in :
    (cap n prev : ℕ) (opts : List CoapOption) (out : List ℕ)
    → n ≡ length opts
    → All IsOption opts
    → length out + length (options_bytes prev opts) ≤ cap
    → write_options cap n prev opts out ≡ ok (out ++ options_bytes prev opts)
unfolding write_options
options_fit_in cap zero prev [] out hn ho room = ap (λ (x : List ℕ). ok x) (sym (append-nil out))
options_fit_in cap zero prev (opt ∷ opts) out hn ho room = absurd (omega (arith, hn))
options_fit_in cap (suc n) prev [] out hn ho room = absurd (omega (arith, hn))
options_fit_in cap (suc n) prev (opt ∷ opts) out hn (h, ho) room =
    let s1 = length-append (option_bytes prev opt) (options_bytes opt.num opts) in
    let s2 = length-append out (option_bytes prev opt) in
    then_ok _ _ (option_fits cap prev opt out h.1 (omega (arith, room, s1))) (
      options_fit_in cap n opt.num opts (out ++ option_bytes prev opt) (omega (arith, hn)) ho
        (omega (arith, room, s1, s2)))
    ∙ ap (λ (x : List ℕ). ok x)
        (append_assoc out (option_bytes prev opt) (options_bytes opt.num opts))

length-marked : (l : List ℕ) → 0 < length l → length (marked l) ≡ suc (length l)
length-marked [] h = absurd (omega (arith, h))
length-marked (b ∷ l) h = refl

payload_fits :
    (cap : ℕ) (payload : CoapBuffer) (out : List ℕ)
    → payload.len ≡ length payload.buffer
    → length out + length (marked payload.buffer) ≤ cap
    → (r : List ℕ) × (write_payload cap payload out ≡ ok r)
unfolding write_payload
payload_fits cap payload out h room = elim (Bool-cases (payload.len == 0)) [
  | inl zero_len ↦ (out, rw (zero_len, write_payload) refl)
  | inr some_len ↦
      let size : length out + 1 + length payload.buffer ≤ cap = omega (
        arith,
        room,
        length-marked payload.buffer (ground (arith, nat_beq_iff payload.len 0, h)),
      ) in
      let s1 : length (out ++ payload_marker ∷ []) ≡ length out + 1 =
        length-append out (payload_marker ∷ []) in
      (
        (out ++ payload_marker ∷ []) ++ payload.buffer,
        rw (some_len, write_payload)
            (then_ok _ _ (wrote_byte cap payload_marker out (omega (arith, size))) (
              then_ok _ _ (sliced payload.buffer payload.len h)
                (wrote cap payload.buffer (out ++ payload_marker ∷ []) (omega (arith, size, s1))))),
      )
]

head_fits :
    (cap n : ℕ) (param : CoapPacketParam)
    → 4 ≤ cap
    → (h : List ℕ) × (write_head cap n param ≡ ok h) × (length h ≡ 4)
unfolding write_head be16_put
head_fits cap n param room =
    let b0 = bit_or (bit_or (coap_version * 2 ^ 6 % 256) (param.msg_type * 2 ^ 4 % 256)) n in
    let c = param.code % 256 in
    (
      b0 ∷ c ∷ be16_put param.msg_id,
      then_ok _ _
          (then_ok _ _ (wrote_byte cap b0 [] (omega (arith, room)))
            (wrote_byte cap c (b0 ∷ []) (omega (arith, room))))
          (wrote cap (be16_put param.msg_id) (b0 ∷ c ∷ []) (omega (arith, room, size))),
      ap (λ (x : ℕ). 2 + x) size,
    )
  where
    size : length (be16_put param.msg_id) ≡ 2
    size = refl

-- COAP_SoftBusEncode writes every message whose fields are in range, whose lengths are those of its buffers,
-- with a token of at most 8 bytes and at most 16 options, when the buffer has room for its bytes.
pub encode_fits :
    (param : CoapPacketParam) (token payload : CoapBuffer) (cap : ℕ)
    → IsMessage param token payload
    → token.len ≤ 8
    → length (message_bytes param token payload) ≤ cap
    → encode param token payload cap ≡ ok (message_bytes param token payload)
unfolding encode write_message
encode_fits param token payload cap m small room =
    let n : token.len % 256 ≡ token.len = omega (arith, small) in
    let short : ltb 8 token.len ≡ false = ground (arith, small) in
    let opts = options_bytes 0 param.options in
    let end_bytes = marked payload.buffer in
    let s0 = length-append token.buffer (opts ++ end_bytes) in
    let s1 = length-append opts end_bytes in
    let (head, wrote_head, s2) = head_fits cap token.len param (omega (arith, room)) in
    let o1 = head ++ token.buffer in
    let s3 : length o1 ≡ length head + length token.buffer = length-append head token.buffer in
    let s4 : length (o1 ++ opts) ≡ length o1 + length opts = length-append o1 opts in
    let (r, last) =
      payload_fits cap payload (o1 ++ opts) m.payload_len
        (omega (arith, room, s0, s1, s2, s3, s4)) in
    let done : write_message cap token.len param token payload ≡ ok r = then_ok _ _ wrote_head (
      then_ok _ _ (sliced token.buffer token.len m.token_len) (
        then_ok _ _
          (then_ok _ _ (wrote cap token.buffer head (omega (arith, room, s0, s1, s2, s3))) (
            options_fit_in cap param.options_num 0 param.options o1 m.options_len m.options_ok
              (omega (arith, room, s0, s1, s2, s3))))
          last)) in
    rw (n, short, encode)
      (done ∙ ap (λ (x : List ℕ). ok x) (message_written param token payload cap r m small done))
