-- ===== src/HiChain/Exchange.antt =====
-- pkg/device_auth/hichain/protocol.go: handleExchangeRequest; utils.go: CleanJSONData.
use dsoftbus_go.Base.{
  ℕ, ◌-◌, ◌==◌, nat_eq, ltb, if◌then◌else◌, Bool, true, false, [], ◌∷◌, ◌++◌, length, take, drop,
  Option, none, some, Result, ok, err, ◌>>=◌,
}
use dsoftbus_go.Base.Text.{Bytes, is_empty}
use dsoftbus_go.HiChain.Hex.{bytes_to_hex, hex_to_bytes}
use dsoftbus_go.HiChain.Pake.{
  encrypt_aes_gcm, decrypt_aes_gcm, sign_ed25519, verify_ed25519_signature,
}
use dsoftbus_go.HiChain.Store.{
  DeviceAuthStore, get_local_private_key, save_local_private_key, save_device_auth_info,
}
use dsoftbus_go.HiChain.{
  Primitives, Answers, AuthInfo, HiChainHandle, AuthMessage, PakePayload, HcError, Failed, Outcome,
  failed_with, or_fail, required, no_payload, message_of, no_random, not_sent, bad_hex,
  no_ex_auth_info, short_ex_auth_info, short_plaintext, bad_auth_info, no_auth_pk, bad_public_key,
  bad_signature, no_key_pair, transmitted, service_result, state_completed,
  msg_type_pake_exchange_resp, hc_ok,
}

-- What stands before the first zero.
unfoldable pub clean_json_data : Bytes → Bytes
clean_json_data [] = []
clean_json_data (b ∷ bs) = if b == 0 then [] else b ∷ clean_json_data bs

-- "hichain_exchange_request"
abbrev pub request_aad : Bytes
request_aad =
    104 ∷ 105 ∷ 99 ∷ 104 ∷ 97 ∷ 105 ∷ 110 ∷ 95 ∷ 101 ∷ 120 ∷ 99 ∷ 104 ∷ 97 ∷ 110 ∷ 103 ∷ 101 ∷ 95
    ∷ 114 ∷ 101 ∷ 113 ∷ 117 ∷ 101 ∷ 115 ∷ 116 ∷ []

-- "hichain_exchange_response"
abbrev pub response_aad : Bytes
response_aad =
    104 ∷ 105 ∷ 99 ∷ 104 ∷ 97 ∷ 105 ∷ 110 ∷ 95 ∷ 101 ∷ 120 ∷ 99 ∷ 104 ∷ 97 ∷ 110 ∷ 103 ∷ 101 ∷ 95
    ∷ 114 ∷ 101 ∷ 115 ∷ 112 ∷ 111 ∷ 110 ∷ 115 ∷ 101 ∷ []

abbrev ex_auth_info_of : Option PakePayload → Result HcError Bytes
ex_auth_info_of none = err no_ex_auth_info
ex_auth_info_of (some p) =
    if is_empty p.ex_auth_info
    then err no_ex_auth_info
    else required bad_hex (hex_to_bytes p.ex_auth_info)

abbrev long_enough : ℕ → HcError → Bytes → Result HcError Bytes
long_enough n e bs = if ltb (length bs) n then err e else ok bs

abbrev public_key_of : Option Bytes → Result HcError Bytes
public_key_of none = err bad_public_key
public_key_of (some key) = if length key == 32 then ok key else err bad_public_key

-- The device id of the field "authId": a missing one reads as the empty string.
abbrev device_id_of : AuthInfo → Option Bytes
device_id_of info = elim info.auth_id [ none ↦ some [] | some hex ↦ hex_to_bytes hex ]

abbrev or_empty : Option Bytes → Bytes
or_empty none = []
or_empty (some bs) = bs

abbrev with_peer : HiChainHandle → Option Bytes → HiChainHandle
with_peer h none = h
with_peer h (some id) = record h { peer_auth_id = id }

abbrev if_signed :
    Bool → HiChainHandle → Bytes → Bytes → Result Failed (HiChainHandle × Bytes × Bytes)
if_signed true h public_key client_id = ok (h, public_key, client_id)
if_signed false h public_key client_id = err (h, bad_signature)

-- The server's own keys: those of the handle, of the cache, or new ones that the cache keeps.
unfoldable pub long_term_keys :
    Answers → DeviceAuthStore → HiChainHandle → Result Failed (HiChainHandle × DeviceAuthStore)
long_term_keys a s h =
    if length h.long_term_private_key == 0
    then elim (get_local_private_key s h.self_auth_id) [
      | some (private_key, public_key) ↦
          ok
            (record h { long_term_private_key = private_key; long_term_public_key = public_key }, s)
      | none ↦ do
        (private_key, public_key) ← or_fail h (required no_key_pair a.key_pair)
        ok (
          record h { long_term_private_key = private_key; long_term_public_key = public_key },
          save_local_private_key s h.self_auth_id private_key public_key,
        )
    ]
    else ok (h, s)

abbrev pub exchange_response : HiChainHandle → Bytes → Bytes → AuthMessage
exchange_response h client_id ex_auth_info = record (message_of msg_type_pake_exchange_resp) {
  request_id = h.request_id;
  peer_device_id = h.self_auth_id;
  peer_auth_id = h.self_auth_id;
  conn_device_id = client_id;
  peer_udid = client_id;
  payload = some (record no_payload { ex_auth_info = bytes_to_hex ex_auth_info });
}

-- The peer's key is cached and the end reported only when the answer was sent.
abbrev finish_exchange :
    Bool → DeviceAuthStore → HiChainHandle → Bytes → Bytes → Outcome × DeviceAuthStore
finish_exchange true s h public_key message = (
  (record h { state = state_completed }, transmitted message ∷ service_result hc_ok ∷ [], none),
  save_device_auth_info s h.peer_auth_id public_key,
)
finish_exchange false s h public_key message = ((h, transmitted message ∷ [], some not_sent), s)

module _ (pr : Primitives) where
  -- What the peer's message says once it is decrypted: the handle, the peer's public key and its id.
  unfoldable pub exchange_client :
      HiChainHandle → Option PakePayload → Result Failed (HiChainHandle × Bytes × Bytes)
  exchange_client h payload = do
    ex_auth_info ← or_fail h (ex_auth_info_of payload)
    sealed ← or_fail h (long_enough 12 short_ex_auth_info ex_auth_info)
    let opened = decrypt_aes_gcm pr h.session_key (take 12 sealed) (drop 12 sealed) request_aad
    plaintext ← or_fail h opened
    signed ← or_fail h (long_enough 64 short_plaintext plaintext)
    let auth_info = take (length signed - 64) signed
    let signature = drop (length signed - 64) signed
    info ← or_fail h (required bad_auth_info (pr.unmarshal_auth_info (clean_json_data auth_info)))
    auth_pk ← or_fail h (required no_auth_pk info.auth_pk)
    public_key ← or_fail h (public_key_of (hex_to_bytes auth_pk))
    let h1 = with_peer h (device_id_of info)
    let signed_message = h.peer_challenge ++ (h.our_challenge ++ auth_info)
    if_signed (verify_ed25519_signature pr public_key signed_message signature) h1 public_key
        (or_empty (device_id_of info))

  abbrev pub server_auth_info : HiChainHandle → Bytes
  server_auth_info h =
      pr.marshal_auth_info (bytes_to_hex h.self_auth_id) (bytes_to_hex h.long_term_public_key)

  -- Nonce and ciphertext of the server's info and signature.
  unfoldable pub exchange_server : Answers → HiChainHandle → Result Failed Bytes
  exchange_server a h = do
    let auth_info = server_auth_info h
    let to_sign = h.our_challenge ++ (h.peer_challenge ++ auth_info)
    signature ← or_fail h (sign_ed25519 pr h.long_term_private_key to_sign)
    nonce ← or_fail h (required no_random a.nonce)
    cipher ←
        or_fail h (encrypt_aes_gcm pr h.session_key nonce (auth_info ++ signature) response_aad)
    ok (nonce ++ cipher)

  unfoldable pub handle_exchange_request :
      Answers → DeviceAuthStore → HiChainHandle → AuthMessage → Outcome × DeviceAuthStore
  handle_exchange_request a s h msg = elim (exchange_client h msg.payload) [
    | err f ↦ (failed_with f, s)
    | ok (h1, public_key, client_id) ↦ elim (long_term_keys a s h1) [
      | err f ↦ (failed_with f, s)
      | ok (h2, s2) ↦ elim (exchange_server a h2) [
        | err f ↦ (failed_with f, s2)
        | ok info ↦
            finish_exchange a.sent s2 h2 public_key
              (pr.marshal (exchange_response h2 client_id info))
      ]
    ]
  ]
