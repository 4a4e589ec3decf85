-- ===== src/HiChain/Handlers.antt =====
-- pkg/device_auth/hichain/protocol.go: startAuthentication, handleAuthStart, handleAuthChallenge,
-- handleAuthResponse and handleAuthConfirm. The errors that callbacks for keys and results give are not
-- read by the code.
use dsoftbus_go.Base.{
  ◌==◌, nat_eq, if◌then◌else◌, Bool, true, false, List, [], ◌∷◌, ◌++◌, take, drop, Option, none,
  some, Result, ok, err, ◌>>=◌,
}
use dsoftbus_go.Base.Int.{int_eq}
use dsoftbus_go.Base.Text.{Bytes, is_empty, list_eq}
use dsoftbus_go.HiChain.Hex.{bytes_to_hex, hex_to_bytes}
use dsoftbus_go.HiChain.Pake.{
  compute_x25519_base_point, generate_x25519_key_pair, compute_x25519_public_key,
  compute_x25519_shared_secret, derive_session_key, compute_kcf_data_v1,
}
use dsoftbus_go.HiChain.{
  Primitives, Answers, HiChainHandle, ProtocolParams, AuthMessage, PakePayload, VersionInfo,
  HcError, HcCall, Failed, Outcome, failed_with, or_fail, required, no_payload, message_of,
  no_params, no_random, no_device_id, not_sent, payload_nil, bad_hex, kcf_mismatch, old_protocol,
  transmitted, session_key_set, service_result, state_started, state_authenticating,
  state_completed, state_failed, msg_type_auth_start, msg_type_pake_response,
  msg_type_pake_server_confirm, hc_ok, hc_auth_failed,
}

-- "888888"
abbrev default_pin : Bytes
default_pin = 56 ∷ 56 ∷ 56 ∷ 56 ∷ 56 ∷ 56 ∷ []

-- "1.0.0" and "2.0.26"
abbrev default_version : VersionInfo
default_version = record {
  min_version = 49 ∷ 46 ∷ 48 ∷ 46 ∷ 48 ∷ [];
  current_version = 50 ∷ 46 ∷ 48 ∷ 46 ∷ 50 ∷ 54 ∷ [];
}

abbrev pub pin_of : ProtocolParams → Bytes
pin_of params = if is_empty params.pin_code then default_pin else params.pin_code

-- The message is handed to OnTransmit; the state changes only if that succeeds.
abbrev pub transmit : Bool → HiChainHandle → HiChainHandle → List HcCall → Bytes → Outcome
transmit true h done calls message = (done, calls ++ transmitted message ∷ [], none)
transmit false h done calls message = (h, calls ++ transmitted message ∷ [], some not_sent)

-- `connDeviceId`, or else `peerDeviceId`.
abbrev requested_peer : HiChainHandle → AuthMessage → Bytes
requested_peer h msg =
    if is_empty msg.conn_device_id
    then if is_empty msg.peer_device_id then h.peer_auth_id else msg.peer_device_id
    else msg.conn_device_id

abbrev pub version_of : Option PakePayload → VersionInfo
version_of none = default_version
version_of (some p) = elim p.version [ none ↦ default_version | some v ↦ v ]

abbrev own_id : ProtocolParams → Result HcError Bytes
own_id params = if is_empty params.self_auth_id then err no_device_id else ok params.self_auth_id

abbrev pub pake_response : HiChainHandle → AuthMessage → AuthMessage
pake_response h msg = record (message_of msg_type_pake_response) {
  request_id = h.request_id;
  payload = some (record no_payload {
    salt = bytes_to_hex h.pake_salt;
    epk = bytes_to_hex h.pake_epk;
    challenge = bytes_to_hex h.our_challenge;
    version = some (version_of msg.payload);
  });
}

module _ (pr : Primitives) where
  -- The handle and the message that starts an authentication.
  abbrev auth_start : Answers → HiChainHandle → Result Failed (HiChainHandle × AuthMessage)
  auth_start a h = do
    params ← or_fail h (required no_params a.params)
    let h1 = record h { self_auth_id = params.self_auth_id; peer_auth_id = params.peer_auth_id }
    challenge ← or_fail h1 (required no_random a.challenge)
    ok (
      record h1 { our_challenge = challenge },
      record (message_of msg_type_auth_start) {
        session_id = h.identity.session_id;
        challenge = bytes_to_hex challenge;
        auth_id = params.self_auth_id;
      },
    )

  unfoldable pub start_authentication : Answers → HiChainHandle → Outcome
  start_authentication a h = elim (auth_start a h) [
    | err f ↦ failed_with f
    | ok (h', msg) ↦ transmit a.sent h' (record h' { state = state_started }) [] (pr.marshal msg)
  ]

  -- Salt, base point, key pair and challenge; what was computed before an error is kept.
  unfoldable pub pake_start : Answers → HiChainHandle → AuthMessage → Result Failed HiChainHandle
  pake_start a h msg = do
    let h1 = record h { request_id = msg.request_id; peer_auth_id = requested_peer h msg }
    params ← or_fail h1 (required no_params a.params)
    let h2 = record h1 { self_auth_id = params.self_auth_id }
    self_id ← or_fail h2 (own_id params)
    salt ← or_fail h2 (required no_random a.salt)
    let h3 = record h2 { pake_salt = salt }
    base ← or_fail h3 (compute_x25519_base_point pr (pin_of params) salt)
    let h4 = record h3 { pake_base = base }
    pair ← or_fail h4 (generate_x25519_key_pair pr a.private_bytes)
    epk ← or_fail h4 (compute_x25519_public_key pr pair.0 base)
    let h5 = record h4 { pake_esk = pair.0; pake_epk = epk }
    challenge ← or_fail h5 (required no_random a.challenge)
    ok (record h5 { our_challenge = challenge })

  unfoldable pub handle_auth_start : Answers → HiChainHandle → AuthMessage → Outcome
  handle_auth_start a h msg = elim (pake_start a h msg) [
    | err f ↦ failed_with f
    | ok h' ↦
        transmit a.sent h' (record h' { state = state_authenticating }) []
          (pr.marshal (pake_response h' msg))
  ]

  -- The peer's key, its challenge, the shared secret and the two keys, of which the session key is
  -- stored. The result has the key for proofs as well.
  unfoldable pub pake_keys : HiChainHandle → PakePayload → Result Failed (HiChainHandle × Bytes)
  pake_keys h p = do
    epk ← or_fail h (required bad_hex (hex_to_bytes p.epk))
    let h1 = record h { pake_peer_epk = epk }
    challenge ← or_fail h1 (required bad_hex (hex_to_bytes p.challenge))
    let h2 = record h1 { peer_challenge = challenge }
    shared ← or_fail h2 (compute_x25519_shared_secret pr h.pake_esk epk)
    let h3 = record h2 { pake_shared_sec = shared }
    union_key ← or_fail h3 (derive_session_key pr shared h.pake_salt 48)
    ok (record h3 { session_key = take 16 union_key }, take 32 (drop 16 union_key))

  abbrev pub expected_kcf : HiChainHandle → Bytes → Bytes
  expected_kcf h hmac_key = compute_kcf_data_v1 pr hmac_key h.our_challenge h.peer_challenge false

  -- The proof of the peer is compared byte by byte, after its length.
  unfoldable pub check_kcf : HiChainHandle → Bytes → PakePayload → Result Failed Bytes
  check_kcf h hmac_key p = do
    kcf ← or_fail h (required bad_hex (hex_to_bytes p.kcf_data))
    if expected_kcf h hmac_key == kcf then ok kcf else err (h, kcf_mismatch)

  abbrev pub server_confirm : HiChainHandle → Bytes → AuthMessage
  server_confirm h hmac_key = record (message_of msg_type_pake_server_confirm) {
    request_id = h.request_id;
    payload = some (record no_payload {
      kcf_data =
          bytes_to_hex (compute_kcf_data_v1 pr hmac_key h.our_challenge h.peer_challenge true);
    });
  }

  -- The keys, where the peer has proved that it has them too.
  unfoldable pub confirmed_keys :
      HiChainHandle → Option PakePayload → Result Failed (HiChainHandle × Bytes)
  confirmed_keys h none = err (h, payload_nil)
  confirmed_keys h (some p) = do keys ← pake_keys h p; checked ← check_kcf keys.0 keys.1 p; ok keys

  unfoldable pub handle_auth_challenge : Answers → HiChainHandle → AuthMessage → Outcome
  handle_auth_challenge a h msg = elim (confirmed_keys h msg.payload) [
    | err f ↦ failed_with f
    | ok (h', hmac_key) ↦
        transmit a.sent h' (record h' { state = state_authenticating })
          (session_key_set h'.session_key ∷ []) (pr.marshal (server_confirm h' hmac_key))
  ]

abbrev pub handle_auth_response : HiChainHandle → Outcome
handle_auth_response h = (h, [], some old_protocol)

unfoldable pub handle_auth_confirm : HiChainHandle → AuthMessage → Outcome
handle_auth_confirm h msg =
    if msg.result == hc_ok
    then (record h { state = state_completed }, service_result hc_ok ∷ [], none)
    else (record h { state = state_failed }, service_result hc_auth_failed ∷ [], none)
