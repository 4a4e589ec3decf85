-- ===== src/Coap/RoundTrip.antt =====
-- What coap_adapter.go encodes, it decodes; and the message ids.
use dsoftbus_go.Base.{
  ℕ, suc, ◌/◌, ◌%◌, ◌^◌, ◌≡◌, ◌≢◌, ◌≤◌, ◌<◌, refl, sym, arith, if◌then◌else◌, ◌==◌, nat_eq,
  nat_beq_iff, ltb, false, List, [], ◌∷◌, ◌++◌, length, length-append, take-append_exact,
  drop-append_exact, All, ok,
}
use dsoftbus_go.Base.Bytes.{be16_get}
use dsoftbus_go.Coap.{
  CoapOption, CoapBuffer, CoapPacket, CoapPacketParam, coap_version, coap_max_option, encode,
  read_options, parse_options_and_payload, decode, coap_soft_bus_msg_id,
}
use dsoftbus_go.Coap.Options.{
  IsOption, options_bytes, marked, read_options-options_bytes, length-options_bytes,
}
use dsoftbus_go.Coap.Encoded.{
  IsMessage, message_bytes, marked_some, first_byte, encode-message_bytes,
}

-- What the packet is after its options and its payload were read.
abbrev with_payload : CoapPacket → List CoapOption × List ℕ → CoapPacket
with_payload pkt found = record pkt {
  options = found.0;
  payload =
      if length found.1 == 0
      then pkt.payload
      else record { buffer = found.1; len = length found.1 };
}

parse_some :
    (pkt : CoapPacket) (bytes : List ℕ) (found : List CoapOption × List ℕ)
    → 0 < length bytes
    → read_options (length bytes) 0 0 bytes ≡ ok found
    → parse_options_and_payload pkt bytes ≡ ok (with_payload pkt found)
unfolding parse_options_and_payload
parse_some pkt [] found h e = absurd (omega (arith, h))
parse_some pkt (b ∷ bytes) found h e = rw (parse_options_and_payload, e) refl

parsed :
    (pkt : CoapPacket) (opts : List CoapOption) (payload : CoapBuffer)
    → All IsOption opts
    → length opts ≤ coap_max_option
    → payload.len ≡ length payload.buffer
    → 0 < payload.len
    → parse_options_and_payload pkt (options_bytes 0 opts ++ marked payload.buffer)
      ≡ ok (record pkt { options = opts; payload = payload })
parsed pkt opts payload ho hs hl hp =
    let bytes = options_bytes 0 opts ++ marked payload.buffer in
    let some_left : length (marked payload.buffer) ≡ suc (length payload.buffer) =
      rw (marked_some payload.buffer (omega (arith, hl, hp))) refl in
    let long : length opts < length bytes = omega (
      arith,
      length-append (options_bytes 0 opts) (marked payload.buffer),
      length-options_bytes 0 opts,
      some_left,
    ) in
    let not_empty : (length payload.buffer == 0) ≡ false =
      ground (arith, nat_beq_iff (length payload.buffer) 0, hl, hp) in
    rw
      (parse_some pkt bytes (opts, payload.buffer) (omega (arith, long))
        (read_options-options_bytes (length bytes) 0 0 opts payload.buffer (omega arith) ho
          (omega (arith, hs)) long))
      (rw not_empty (rw hl refl))

decode-message_bytes :
    (pkt : CoapPacket) (param : CoapPacketParam) (token payload : CoapBuffer)
    → IsMessage param token payload
    → token.len ≤ 8
    → 0 < payload.len
    → decode pkt (message_bytes param token payload)
      ≡ ok (record {
        header = record {
          ver = coap_version;
          msg_type = param.msg_type;
          token_len = token.len;
          code = param.code;
          msg_id = param.msg_id;
        };
        token = token;
        options = param.options;
        payload = payload;
      })
unfolding decode
decode-message_bytes pkt param token payload m ht hp =
    let (_, ver, msg_type, token_len) = first_byte param.msg_type token.len m.type_fits ht in
    let rest = options_bytes 0 param.options ++ marked payload.buffer in
    let long : ltb 8 token.len ≡ false = ground (arith, ht) in
    let enough : ltb (length (token.buffer ++ rest)) token.len ≡ false =
      ground (arith, length-append token.buffer rest, m.token_len) in
    let id_back : be16_get (param.msg_id / 256 % 256) (param.msg_id % 256) ≡ param.msg_id =
      omega (arith, m.id_fits) in
    rw (ver, msg_type, token_len, long, enough)
      (rw
        (
          take-append_exact token.len token.buffer rest (sym m.token_len),
          drop-append_exact token.len token.buffer rest (sym m.token_len),
          parsed _ param.options payload m.options_ok m.options_fit m.payload_len hp,
          id_back,
        )
        refl)

-- Take a message whose fields are in range, whose lengths are those of its buffers, with at most 16 options
-- and a payload that is not empty. What COAP_SoftBusEncode writes for it, if it has room, COAP_SoftBusDecode
-- reads back as this message, whatever packet it is read into: the head, the token, every option and the
-- payload.
pub decode-encode :
    (pkt : CoapPacket) (param : CoapPacketParam) (token payload : CoapBuffer) (cap : ℕ) (r : List ℕ)
    → IsMessage param token payload
    → 0 < payload.len
    → encode param token payload cap ≡ ok r
    → decode pkt r
      ≡ ok (record {
        header = record {
          ver = coap_version;
          msg_type = param.msg_type;
          token_len = token.len;
          code = param.code;
          msg_id = param.msg_id;
        };
        token = token;
        options = param.options;
        payload = payload;
      })
decode-encode pkt param token payload cap r m hp e =
    let (small, made) = encode-message_bytes param token payload cap r m e in
    rw made (decode-message_bytes pkt param token payload m small hp)

-- The next message id is never 0, fits an uint16, and differs from the id before it.
pub coap_soft_bus_msg_id_lem :
    (i : ℕ)
    → i < 2 ^ 16
    → (0 < coap_soft_bus_msg_id i)
      × (coap_soft_bus_msg_id i < 2 ^ 16)
      × (coap_soft_bus_msg_id i ≢ i)
unfolding coap_soft_bus_msg_id
coap_soft_bus_msg_id_lem i h = ground arith
