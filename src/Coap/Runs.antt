-- ===== src/Coap/Runs.antt =====
-- A concrete discovery message, and the theorems at concrete inputs.
use dsoftbus_go.Base.{ℕ, length, ◌<◌, ◌≤◌, ◌≡◌, refl, arith, List, [], ◌∷◌, ok, err}
use dsoftbus_go.Base.Bytes.{be16_put}
use dsoftbus_go.Coap.{
  CoapBuffer, CoapPacket, CoapPacketParam, encode, write_head, write_message, write_byte,
  write_bytes, write_options, write_option, write_payload, slice, extended, decode, coap_version,
  ver_invalid, bad_req, failed,
}
use dsoftbus_go.Coap.Encoded.{IsMessage}
use dsoftbus_go.Coap.RoundTrip.{decode-encode}
use dsoftbus_go.Coap.Termination.{decode_terminates, IsBody, IsDecoded, Gives}
use dsoftbus_go.Coap.Reply.{IsRequest, build_send_pkt, build_send_pkt_lem, device_discover_uri}

abbrev empty_packet : CoapPacket
empty_packet = record {
  header = record { ver = 0; msg_type = 0; token_len = 0; code = 0; msg_id = 0 };
  token = record { buffer = []; len = 0 };
  options = [];
  payload = record { buffer = []; len = 0 };
}

-- URI_HOST "ab", and URI_PATH with a value of 14 bytes.
abbrev discover : CoapPacketParam
discover = record {
  msg_type = 1;
  code = 2;
  msg_id = 0x1234;
  options =
      record { num = 3; option_buf = 97 ∷ 98 ∷ []; len = 2 }
      ∷ record {
        num = 11;
        option_buf = 1 ∷ 2 ∷ 3 ∷ 4 ∷ 5 ∷ 6 ∷ 7 ∷ 8 ∷ 9 ∷ 10 ∷ 11 ∷ 12 ∷ 13 ∷ 14 ∷ [];
        len = 14;
      }
      ∷ [];
  options_num = 2;
}

abbrev token_1 : CoapBuffer
token_1 = record { buffer = 42 ∷ []; len = 1 }

abbrev hello : CoapBuffer
hello = record { buffer = 104 ∷ 105 ∷ 0 ∷ []; len = 3 }

abbrev discover_bytes : List ℕ
discover_bytes =
    0x51 ∷ 2 ∷ 0x12 ∷ 0x34 ∷ 42 ∷ 0x32 ∷ 97 ∷ 98 ∷ 0x8D ∷ 1 ∷ 1 ∷ 2 ∷ 3 ∷ 4 ∷ 5 ∷ 6 ∷ 7 ∷ 8 ∷ 9 ∷ 10
    ∷ 11 ∷ 12 ∷ 13 ∷ 14 ∷ 0xFF ∷ 104 ∷ 105 ∷ 0 ∷ []

discover_encoded : encode discover token_1 hello 64 ≡ ok discover_bytes
unfolding encode write_message write_head write_byte write_bytes write_options write_option
    write_payload slice extended be16_put
discover_encoded = refl

-- A buffer of 27 bytes is one too short.
discover_full : encode discover token_1 hello 27 ≡ err failed
unfolding encode write_message write_head write_byte write_bytes write_options write_option
    write_payload slice extended be16_put
discover_full = refl

discover-IsMessage : IsMessage discover token_1 hello
discover-IsMessage = record {
  type_fits = omega arith;
  code_fits = omega arith;
  id_fits = omega arith;
  token_len = refl;
  token_fits = omega arith;
  options_len = refl;
  options_fit = omega arith;
  options_ok = ((omega arith, refl, omega arith), ((omega arith, refl, omega arith), tt));
  payload_len = refl;
}

decode-encode_example :
    decode empty_packet discover_bytes
    ≡ ok (record {
      header = record {
        ver = coap_version;
        msg_type = 1;
        token_len = 1;
        code = 2;
        msg_id = 0x1234;
      };
      token = token_1;
      options = discover.options;
      payload = hello;
    })
decode-encode_example =
    decode-encode empty_packet discover token_1 hello 64 discover_bytes discover-IsMessage
      (omega arith) discover_encoded

-- Version 0.
other_version : decode empty_packet (0x10 ∷ 1 ∷ 0 ∷ 1 ∷ []) ≡ err ver_invalid
unfolding decode
other_version = refl

empty_packet-IsBody : IsBody empty_packet
empty_packet-IsBody = record { few_options = omega arith; options_ok = tt; payload_ok = refl }

decode_terminates_example : Gives IsDecoded (decode empty_packet discover_bytes)
decode_terminates_example = decode_terminates empty_packet discover_bytes empty_packet-IsBody

abbrev request : CoapPacket
request = record {
  header = record { ver = 1; msg_type = 0; token_len = 1; code = 2; msg_id = 0x1234 };
  token = token_1;
  options = [];
  payload = hello;
}

request-IsRequest : IsRequest request (49 ∷ 48 ∷ [])
request-IsRequest = record {
  code_fits = omega arith;
  id_fits = omega arith;
  token_len = refl;
  token_short = omega arith;
  has_host = omega arith;
}

-- The empty text is refused.
no_text : build_send_pkt request (49 ∷ 48 ∷ []) [] 1024 1024 ≡ err bad_req
unfolding build_send_pkt
no_text = refl

build_send_pkt_lem_example :
    (r : List ℕ) × (build_send_pkt request (49 ∷ 48 ∷ []) (104 ∷ 105 ∷ []) 1024 1024 ≡ ok r)
    × (length r < 1024)
    × (length r ≤ 1024)
    × (length r ≤ 1024)
    × (decode empty_packet r
        ≡ ok (record {
          header = record { ver = 1; msg_type = 1; token_len = 1; code = 2; msg_id = 0x1234 };
          token = token_1;
          options =
              record { num = 3; option_buf = 49 ∷ 48 ∷ []; len = 2 }
              ∷ record { num = 11; option_buf = device_discover_uri; len = 15 }
              ∷ [];
          payload = record { buffer = 104 ∷ 105 ∷ 0 ∷ []; len = 3 };
        }))
build_send_pkt_lem_example =
    build_send_pkt_lem request empty_packet (49 ∷ 48 ∷ []) (104 ∷ 105 ∷ []) 1024 1024
      request-IsRequest (omega arith) (omega arith) (omega arith) (omega arith)
