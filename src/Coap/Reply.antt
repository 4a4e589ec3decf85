-- ===== src/Coap/Reply.antt =====
-- coap_adapter.go: BuildSendPkt and COAP_SoftBusBuildMessage, the answer to a discovery request. Texts are
-- their bytes, and the pointers that the code tests for nil are there.
use dsoftbus_go.Base.{
  ap, ◌∙◌, ℕ, ◌+◌, ◌^◌, ◌≡◌, ◌≤◌, ◌<◌, refl, arith, if◌then◌else◌, ◌==◌, nat_eq, nat_beq_iff, ◌||◌,
  ltb, leb, false, List, [], ◌∷◌, ◌++◌, length, length-append, Result, ok, err,
}
use dsoftbus_go.Base.Bytes.{be16_put}
use dsoftbus_go.Coap.Options.{option_bytes, marked}
use dsoftbus_go.Coap.{
  extended, option_delta, CoapOption, CoapBuffer, CoapPacket, CoapPacketParam, CoapError, bad_req,
  encode, decode,
}
use dsoftbus_go.Coap.Encoded.{marked_some, IsMessage, message_bytes}
use dsoftbus_go.Coap.RoundTrip.{decode-encode}
use dsoftbus_go.Coap.Capacity.{encode_fits}

abbrev pub coap_max_pdu_size : ℕ
coap_max_pdu_size = 1024

-- "device_discover"
abbrev pub device_discover_uri : List ℕ
device_discover_uri =
    100 ∷ 101 ∷ 118 ∷ 105 ∷ 99 ∷ 101 ∷ 95 ∷ 100 ∷ 105 ∷ 115 ∷ 99 ∷ 111 ∷ 118 ∷ 101 ∷ 114 ∷ []

abbrev pub bytes_option : ℕ → List ℕ → CoapOption
bytes_option num bytes = record { num = num; option_buf = bytes; len = length bytes }

abbrev pub response_param : CoapPacket → List ℕ → CoapPacketParam
response_param pkt remote_ip = record {
  msg_type = 1;
  code = pkt.header.code;
  msg_id = pkt.header.msg_id;
  options = bytes_option 3 remote_ip ∷ bytes_option 11 device_discover_uri ∷ [];
  options_num = 2;
}

-- The payload with the null byte behind it.
abbrev pub response_payload : List ℕ → CoapBuffer
response_payload payload = record { buffer = payload ++ 0 ∷ []; len = length (payload ++ 0 ∷ []) }

abbrev pub min_size : ℕ → ℕ → ℕ
min_size a b = if ltb a b then a else b

-- After the encoder: the length is compared with the buffer's capacity.
abbrev pub check_size : ℕ → Result CoapError (List ℕ) → Result CoapError (List ℕ)
check_size cap (ok bytes) = if leb cap (length bytes) then err bad_req else ok bytes
check_size cap (err e) = err bad_req

unfoldable pub build_send_pkt : CoapPacket → List ℕ → List ℕ → ℕ → ℕ → Result CoapError (List ℕ)
build_send_pkt pkt remote_ip payload buffer_len cap =
    if length remote_ip == 0 || length payload == 0
    then err bad_req
    else check_size cap (
        encode (response_param pkt remote_ip) pkt.token (response_payload payload)
          (min_size buffer_len coap_max_pdu_size))

-- A request that was decoded, with a token of at most 8 bytes, for a host that is not empty.
pub record IsRequest (pkt : CoapPacket) (remote_ip : List ℕ) : Type 0 where
  pub code_fits : pkt.header.code < 256
  pub id_fits : pkt.header.msg_id < 2 ^ 16
  pub token_len : pkt.token.len ≡ length pkt.token.buffer
  pub token_short : pkt.token.len ≤ 8
  pub has_host : 0 < length remote_ip

response-IsMessage :
    (pkt : CoapPacket) (remote_ip payload : List ℕ)
    → IsRequest pkt remote_ip
    → length remote_ip < 269 + 2 ^ 16
    → IsMessage (response_param pkt remote_ip) pkt.token (response_payload payload)
response-IsMessage pkt remote_ip payload v fits = record {
  type_fits = omega arith;
  code_fits = v.code_fits;
  id_fits = v.id_fits;
  token_len = v.token_len;
  token_fits = omega (arith, v.token_short);
  options_len = refl;
  options_fit = omega arith;
  options_ok = ((omega arith, refl, fits), ((omega arith, refl, omega arith), tt));
  payload_len = refl;
}

abbrev response_bytes : CoapPacket → List ℕ → List ℕ → List ℕ
response_bytes pkt remote_ip payload =
    message_bytes (response_param pkt remote_ip) pkt.token (response_payload payload)

length-extended : (v : ℕ) → length (extended v).1 ≤ 2
unfolding extended be16_put
length-extended v = ground arith

length-option_bytes :
    (prev num : ℕ) (bytes : List ℕ)
    → length (option_bytes prev (bytes_option num bytes))
      ≤ length (extended (option_delta prev num)).1 + 3 + length bytes
length-option_bytes prev num bytes =
    let l = extended (length bytes) in
    omega (
      arith,
      length-append (extended (option_delta prev num)).1 (l.1 ++ bytes),
      length-append l.1 bytes,
      length-extended (length bytes),
    )

-- Two options of at most 3 bytes and their texts, with deltas of a nibble.
length-response_bytes :
    (pkt : CoapPacket) (remote_ip payload : List ℕ)
    → IsRequest pkt remote_ip
    → length (response_bytes pkt remote_ip payload) ≤ 35 + length remote_ip + length payload
unfolding extended
length-response_bytes pkt remote_ip payload v =
    let text = payload ++ 0 ∷ [] in
    let some_text : length text ≡ length payload + 1 = length-append payload (0 ∷ []) in
    let shown : length (marked text) ≡ length text + 1 =
      ap (λ (l : List ℕ). length l) (marked_some text (omega (arith, some_text))) ∙ omega arith in
    let host = option_bytes 0 (bytes_option 3 remote_ip) in
    let path = option_bytes 3 (bytes_option 11 device_discover_uri) ++ [] in
    let h : length host ≤ 3 + length remote_ip = length-option_bytes 0 3 remote_ip in
    let p : length path ≤ 18 = omega arith in
    omega (
      arith,
      v.token_len,
      v.token_short,
      length-append pkt.token.buffer ((host ++ path) ++ marked text),
      length-append (host ++ path) (marked text),
      length-append host path,
      shown,
      some_text,
      h,
      p,
    )

-- Take a request with a code and an id in range and a token of at most 8 bytes that has its own length, a
-- host and a text that are not empty, and let 35 bytes more than the host and the text be fewer than the
-- buffer's capacity, and at most the length that is given for it and a PDU's 1024 bytes. Then BuildSendPkt
-- writes an answer, which is shorter than the capacity, and at most that length and a PDU. Whoever decodes
-- it finds the request's code, message id and token, type 1, the host (option 3) and the discovery path
-- (option 11), and the text with a null byte behind it.
pub build_send_pkt_lem :
    (pkt into : CoapPacket) (remote_ip payload : List ℕ) (buffer_len cap : ℕ)
    → IsRequest pkt remote_ip
    → 0 < length payload
    → 35 + length remote_ip + length payload < cap
    → 35 + length remote_ip + length payload ≤ buffer_len
    → 35 + length remote_ip + length payload ≤ 1024
    → (r : List ℕ) × (build_send_pkt pkt remote_ip payload buffer_len cap ≡ ok r)
      × (length r < cap)
      × (length r ≤ buffer_len)
      × (length r ≤ 1024)
      × (decode into r
          ≡ ok (record {
            header = record {
              ver = 1;
              msg_type = 1;
              token_len = pkt.token.len;
              code = pkt.header.code;
              msg_id = pkt.header.msg_id;
            };
            token = pkt.token;
            options =
                record { num = 3; option_buf = remote_ip; len = length remote_ip }
                ∷ record { num = 11; option_buf = device_discover_uri; len = 15 }
                ∷ [];
            payload = record { buffer = payload ++ 0 ∷ []; len = length (payload ++ 0 ∷ []) };
          }))
unfolding build_send_pkt
build_send_pkt_lem pkt into remote_ip payload buffer_len cap v some_text small fits pdu =
    let r = response_bytes pkt remote_ip payload in
    let bound = length-response_bytes pkt remote_ip payload v in
    let in_cap : length r < cap = omega (arith, bound, small) in
    let in_len : length r ≤ buffer_len = omega (arith, bound, fits) in
    let in_pdu : length r ≤ 1024 = omega (arith, bound, pdu) in
    let param = response_param pkt remote_ip in
    let m = response-IsMessage pkt remote_ip payload v (omega (arith, pdu)) in
    let size = min_size buffer_len coap_max_pdu_size in
    let room : length r ≤ size = ground (arith, in_len, in_pdu) in
    let written =
      encode_fits param pkt.token (response_payload payload) size m v.token_short room in
    let host : (length remote_ip == 0) ≡ false =
      ground (arith, nat_beq_iff (length remote_ip) 0, v.has_host) in
    let text : (length payload == 0) ≡ false =
      ground (arith, nat_beq_iff (length payload) 0, some_text) in
    let below : leb cap (length r) ≡ false = ground (arith, in_cap) in
    (
      r,
      rw (build_send_pkt, host, text) (rw written (rw below refl)),
      in_cap,
      in_len,
      in_pdu,
      decode-encode into param pkt.token (response_payload payload) size r m
          (omega (arith, length-append payload (0 ∷ []))) written,
    )
