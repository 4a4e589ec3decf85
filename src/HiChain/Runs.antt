-- ===== src/HiChain/Runs.antt =====
-- Runs of the HiChain handlers on concrete inputs.
use dsoftbus_go.Base.{
  if◌then◌else◌, ◌==◌, nat_eq, inl, nat_eq, ◌≡◌, refl, ◌-◌, ◌%◌, inl, true, [], ◌∷◌, ◌++◌, length,
  take, drop, none, some, Result, ok, err, arith,
}
use dsoftbus_go.Base.Int.{pos}
use dsoftbus_go.Base.Bytes.{le_get, le_put, le_put-IsByte}
use dsoftbus_go.Base.Text.{Bytes, list_eq, same_items_iff}
use dsoftbus_go.HiChain.Hex.{bytes_to_hex, hex_to_bytes}
use dsoftbus_go.HiChain.Field.{
  exp_mod, set_bytes, reverse_bytes, big_bytes, zeros, curve_p, bytes_to_field_element,
  field_element_to_bytes, elligator_curve25519,
}
use dsoftbus_go.HiChain.FieldBytes.{field_bytes_lem}
use dsoftbus_go.HiChain.Pake.{
  encrypt_aes_gcm, decrypt_aes_gcm, sign_ed25519, verify_ed25519_signature,
  generate_x25519_key_pair, compute_x25519_base_point, compute_x25519_public_key,
  compute_x25519_shared_secret, derive_session_key, compute_kcf_data_v1,
}
use dsoftbus_go.HiChain.Handlers.{
  pake_keys, check_kcf, confirmed_keys, handle_auth_confirm, pin_of, version_of, handle_auth_start,
  handle_auth_challenge, pake_start,
}
use dsoftbus_go.HiChain.Dispatch.{
  get_state, get_session_key, new_handle, receive_data, handle_message,
}
use dsoftbus_go.HiChain.Agreement.{IsHonest, awaited, honest_payload, honest_peer_is_confirmed}
use dsoftbus_go.HiChain.Confirmed.{Proves, reported_is_proved}
use dsoftbus_go.HiChain.Refused.{refuted_key_is_kept, IsRefuted}
use dsoftbus_go.HiChain.Completed.{Ends, success_is_confirmed_or_signed}
use dsoftbus_go.HiChain.Exchange.{exchange_server, server_auth_info, response_aad, clean_json_data}
use dsoftbus_go.HiChain.Exchanged.{IsKeyPair, answer_verifies}
use dsoftbus_go.HiChain.Toy.{toy, toy-IsDh, toy-IsAead}
use dsoftbus_go.HiChain.{
  Primitives, Answers, SessionIdentity, ProtocolParams, HiChainHandle, AuthMessage, PakePayload,
  kcf_mismatch, message_of, no_payload, session_key_set, transmitted, service_result, hc_ok,
  state_authenticating, state_completed,
}

abbrev or_nil : {E : Type 0} → Result E Bytes → Bytes
or_nil (ok b) = b
or_nil (err e) = []

abbrev pr : Primitives
pr = toy (λ raw. some (message_of (pos 4))) (λ raw. none)

abbrev identity : SessionIdentity
identity = record {
  session_id = 7;
  package_name = 112 ∷ [];
  service_type = 115 ∷ [];
  operation_code = pos 1;
}

abbrev params : ProtocolParams
params = record {
  key_length = pos 16;
  self_auth_id = 115 ∷ [];
  peer_auth_id = [];
  pin_code = 49 ∷ 50 ∷ [];
}

abbrev answers : Answers
answers = record {
  params = some params;
  salt = some (le_put 16 77);
  private_bytes = some (le_put 32 1000);
  challenge = some (le_put 16 99);
  nonce = some (le_put 12 5);
  key_pair = none;
  sent = true;
}

abbrev request : AuthMessage
request = record (message_of (pos 1)) { request_id = 55 ∷ []; conn_device_id = 99 ∷ [] }

-- The handle after the request.
abbrev asked : HiChainHandle
asked = (handle_auth_start pr answers (new_handle identity (pos 0)) request).0

abbrev base : Bytes
base = or_nil (compute_x25519_base_point pr (pin_of params) (le_put 16 77))

abbrev peer_epk : Bytes
peer_epk = or_nil (compute_x25519_public_key pr (le_put 32 2222) base)

abbrev secret : Bytes
secret = or_nil (compute_x25519_shared_secret pr (le_put 32 2222) asked.pake_epk)

abbrev union_key : Bytes
union_key = or_nil (derive_session_key pr secret (le_put 16 77) 48)

abbrev answer : PakePayload
answer = record no_payload {
  salt = bytes_to_hex asked.pake_salt;
  epk = bytes_to_hex asked.pake_epk;
  challenge = bytes_to_hex asked.our_challenge;
  version = some (version_of none);
}

peer : IsHonest pr (pin_of params) answer
unfolding handle_auth_start pake_start generate_x25519_key_pair compute_x25519_base_point
    compute_x25519_public_key compute_x25519_shared_secret derive_session_key le_put le_get
    bytes_to_hex hex_to_bytes elligator_curve25519 bytes_to_field_element set_bytes reverse_bytes
    exp_mod field_element_to_bytes big_bytes zeros
peer = record {
  salt = le_put 16 77;
  server_epk = asked.pake_epk;
  server_challenge = le_put 16 99;
  has_salt = refl;
  has_epk = refl;
  has_challenge = refl;
  esk = le_put 32 2222;
  challenge = le_put 16 4444;
  base = base;
  epk = peer_epk;
  secret = secret;
  union_key = union_key;
  base_ok = refl;
  epk_ok = refl;
  secret_ok = refl;
  union_ok = refl;
  challenge_bytes = le_put-IsByte 16 4444;
}

abbrev confirmation : AuthMessage
confirmation = record (message_of (pos 2)) {
  payload = some (honest_payload pr (pin_of params) answer peer);
}

honest_peer_is_confirmed_example :
    (h2 : HiChainHandle) × (handle_auth_challenge pr answers asked confirmation ≡ (
      h2,
      session_key_set (take 16 union_key)
          ∷ transmitted (pr.marshal (awaited pr asked (pin_of params) answer peer))
          ∷ [],
      none,
    ))
    × (h2.state ≡ state_authenticating)
    × (h2.session_key ≡ take 16 union_key)
unfolding handle_auth_start pake_start generate_x25519_key_pair compute_x25519_base_point
    compute_x25519_public_key compute_x25519_shared_secret derive_session_key le_put le_get
    bytes_to_hex hex_to_bytes elligator_curve25519 bytes_to_field_element set_bytes reverse_bytes
    exp_mod field_element_to_bytes big_bytes zeros peer
honest_peer_is_confirmed_example =
    honest_peer_is_confirmed pr (toy-IsDh _ _) answers answers (new_handle identity (pos 0)) asked
      request confirmation (transmitted (0 ∷ 0 ∷ 0 ∷ 0 ∷ []) ∷ []) params answer peer refl refl refl
      (le_put-IsByte 16 77) (le_put-IsByte 16 99) refl refl

-- The same primitives, for a peer that sends the confirmation.
abbrev confirming : Primitives
confirming = toy (λ raw. some confirmation) (λ raw. none)

reported_is_proved_example :
    (msg : AuthMessage) × (confirming.unmarshal (clean_json_data (1 ∷ [])) ≡ some msg)
    × Proves confirming asked msg (take 16 union_key)
unfolding handle_auth_start pake_start generate_x25519_key_pair compute_x25519_base_point
    compute_x25519_public_key compute_x25519_shared_secret derive_session_key le_put le_get
    bytes_to_hex hex_to_bytes elligator_curve25519 bytes_to_field_element set_bytes reverse_bytes
    exp_mod field_element_to_bytes big_bytes zeros peer receive_data handle_message
    handle_auth_challenge confirmed_keys pake_keys check_kcf compute_kcf_data_v1
reported_is_proved_example =
    reported_is_proved confirming answers [] asked (1 ∷ []) (take 16 union_key)
      (handle_message confirming answers [] asked confirmation).0 [] refl (inl refl)

-- A confirmation whose proof is empty.
abbrev unproved : PakePayload
unproved = record (honest_payload pr (pin_of params) answer peer) { kcf_data = [] }

abbrev refuting : AuthMessage
refuting = record (message_of (pos 2)) { payload = some unproved }

-- A message that begins with 1 is the one with the empty proof, every other a confirmation.
abbrev refuting_pr : Primitives
refuting_pr =
    toy
      (λ raw. elim raw [
        | [] ↦ none
        | b ∷ bs ↦ some (if b == 1 then refuting else message_of (pos 4))
      ])
      (λ raw. none)

unproved-IsRefuted : IsRefuted refuting_pr asked unproved
unfolding handle_auth_start pake_start generate_x25519_key_pair compute_x25519_base_point
    compute_x25519_public_key compute_x25519_shared_secret derive_session_key le_put le_get
    bytes_to_hex hex_to_bytes elligator_curve25519 bytes_to_field_element set_bytes reverse_bytes
    exp_mod field_element_to_bytes big_bytes zeros peer
unproved-IsRefuted = record {
  epk = peer_epk;
  challenge = le_put 16 4444;
  secret = secret;
  union_key = union_key;
  kcf = [];
  has_epk = refl;
  has_challenge = refl;
  agreed = refl;
  derived = refl;
  has_kcf = refl;
  wrong = λ e. absurd (cc e);
}

refuted_key_is_kept_example :
    (h1 : HiChainHandle) × (h2 : HiChainHandle) × (receive_data refuting_pr answers []
        (some asked)
        (1 ∷ [])
      ≡ some ((h1, [], some kcf_mismatch), []))
    × (get_state (some h1) ≡ asked.state)
    × (get_session_key (some h1) ≡ take 16 unproved-IsRefuted.union_key)
    × (receive_data refuting_pr answers [] (some h1) (2 ∷ [])
        ≡ some ((h2, service_result hc_ok ∷ [], none), []))
    × (get_state (some h2) ≡ state_completed)
    × (get_session_key (some h2) ≡ take 16 unproved-IsRefuted.union_key)
unfolding clean_json_data
refuted_key_is_kept_example =
    refuted_key_is_kept refuting_pr answers answers [] asked (1 ∷ []) (2 ∷ []) refuting
      (message_of (pos 4)) unproved unproved-IsRefuted refl (inl refl) refl refl (inl refl) refl

success_is_confirmed_or_signed_example :
    (msg : AuthMessage) × (pr.unmarshal (clean_json_data (1 ∷ [])) ≡ some msg)
    × Ends pr (new_handle identity (pos 0)) msg
unfolding receive_data handle_message handle_auth_confirm
success_is_confirmed_or_signed_example =
    success_is_confirmed_or_signed pr answers [] (new_handle identity (pos 0)) (1 ∷ [])
      (
        record (new_handle identity (pos 0)) { state = state_completed },
        service_result hc_ok ∷ [],
        none,
      )
      [] refl (inl refl)

abbrev own_public : Bytes
own_public = le_put 32 888

abbrev keyed : HiChainHandle
keyed = record (new_handle identity (pos 0)) {
  session_key = le_put 16 5;
  self_auth_id = 115 ∷ [];
  our_challenge = 1 ∷ 2 ∷ [];
  peer_challenge = 3 ∷ 4 ∷ [];
  long_term_private_key = le_put 32 0 ++ own_public;
  long_term_public_key = own_public;
}

abbrev answered : Bytes
answered = or_nil (elim (exchange_server pr answers keyed) [ ok info ↦ ok info | err f ↦ err f.1 ])

keyed-IsKeyPair : IsKeyPair pr (le_put 32 0 ++ own_public) own_public
unfolding le_put
keyed-IsKeyPair = record {
  public_size = refl;
  verifies = λ m.
      (same_items_iff (pr.sign (le_put 32 0 ++ own_public) m)
          (pr.sign (le_put 32 0 ++ own_public) m)).1
        refl;
}

answer_verifies_example :
    (text : Bytes) × (decrypt_aes_gcm pr
        (le_put 16 5)
        (take 12 answered)
        (drop 12 answered)
        response_aad
      ≡ ok text)
    × (take (length text - 64) text ≡ server_auth_info pr keyed)
    × (verify_ed25519_signature pr own_public
          (keyed.our_challenge ++ (keyed.peer_challenge ++ server_auth_info pr keyed))
          (drop (length text - 64) text)
        ≡ true)
unfolding exchange_server sign_ed25519 encrypt_aes_gcm le_put le_get bytes_to_hex
answer_verifies_example =
    answer_verifies pr answers keyed (le_put 12 5) answered (toy-IsAead _ _) keyed-IsKeyPair refl
      refl refl

field_bytes_lem_example :
    (bytes_to_field_element (1 ∷ 2 ∷ []) 100 ≡ le_get (1 ∷ 2 ∷ []) % 100)
    × (field_element_to_bytes 300 ≡ le_put 32 300)
    × (bytes_to_field_element (field_element_to_bytes 300) curve_p ≡ 300)
field_bytes_lem_example = field_bytes_lem (1 ∷ 2 ∷ []) 100 300 (omega arith)
