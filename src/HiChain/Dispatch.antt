-- ===== src/HiChain/Dispatch.antt =====
-- pkg/device_auth/hichain/hichain.go: the methods of a handle. `none` is the error of a nil handle.
use dsoftbus_go.Base.{
  ℕ, ◌==◌, nat_eq, if◌then◌else◌, Bool, true, false, [], ◌∷◌, Option, none, some,
}
use dsoftbus_go.Base.Int.{ℤ, int_eq}
use dsoftbus_go.Base.Table.{Table, insert, delete}
use dsoftbus_go.Base.Text.{Bytes}
use dsoftbus_go.HiChain.Handlers.{
  start_authentication, handle_auth_start, handle_auth_challenge, handle_auth_response,
  handle_auth_confirm,
}
use dsoftbus_go.HiChain.Store.{DeviceAuthStore}
use dsoftbus_go.HiChain.Exchange.{clean_json_data, handle_exchange_request}
use dsoftbus_go.HiChain.{
  Primitives, Answers, SessionIdentity, HiChainHandle, AuthMessage, Outcome, HcState, bad_message,
  peer_error, unknown_type, invalid_state, service_result, state_init, state_failed,
  msg_type_auth_start, msg_type_auth_challenge, msg_type_pake_exchange_req, msg_type_auth_confirm,
  msg_type_pake_response, msg_type_pake_server_confirm, msg_type_error, hc_auth_failed,
}

abbrev is_init : HcState → Bool
is_init state_init = true
is_init _ = false

-- The handle that GetInstance makes.
abbrev pub new_handle : SessionIdentity → ℤ → HiChainHandle
new_handle identity device_type = record {
  identity = identity;
  device_type = device_type;
  state = state_init;
  session_key = [];
  peer_auth_id = [];
  self_auth_id = [];
  our_challenge = [];
  peer_challenge = [];
  request_id = [];
  pake_base = [];
  pake_salt = [];
  pake_esk = [];
  pake_epk = [];
  pake_peer_epk = [];
  pake_shared_sec = [];
  long_term_private_key = [];
  long_term_public_key = [];
}

-- The table has the address of each session's handle. `none` is the error of a nil argument.
unfoldable pub get_instance :
    Table ℕ ℕ → ℕ → Option SessionIdentity → Bool → ℤ → Option (HiChainHandle × Table ℕ ℕ)
get_instance t address (some identity) true device_type =
    some (new_handle identity device_type, insert identity.session_id address t)
get_instance t address _ _ device_type = none

-- The caller's pointer becomes nil.
unfoldable pub destroy : Table ℕ ℕ → Option HiChainHandle → Table ℕ ℕ × Option HiChainHandle
destroy t none = (t, none)
destroy t (some h) = (delete h.identity.session_id t, none)

module _ (pr : Primitives) where
  abbrev exchange_or_response :
      Answers → DeviceAuthStore → HiChainHandle → AuthMessage → Outcome × DeviceAuthStore
  exchange_or_response a s h msg = elim msg.payload [
    | some p ↦ handle_exchange_request pr a s h msg
    | none ↦ (handle_auth_response h, s)
  ]

  -- The switch over the type of a message.
  unfoldable pub handle_message :
      Answers → DeviceAuthStore → HiChainHandle → AuthMessage → Outcome × DeviceAuthStore
  handle_message a s h msg =
      if msg.message_type == msg_type_auth_start
      then (handle_auth_start pr a h msg, s)
      else if msg.message_type == msg_type_auth_challenge
      then (handle_auth_challenge pr a h msg, s)
      else if msg.message_type == msg_type_pake_exchange_req
      then exchange_or_response a s h msg
      else if msg.message_type == msg_type_auth_confirm
      then (handle_auth_confirm h msg, s)
      else if msg.message_type == msg_type_pake_response
      then (handle_auth_challenge pr a h msg, s)
      else if msg.message_type == msg_type_pake_server_confirm
      then (handle_auth_confirm h msg, s)
      else if msg.message_type == msg_type_error
      then (
        (
          record h { state = state_failed },
          service_result hc_auth_failed ∷ [],
          some (peer_error msg.error_code),
        ),
        s,
      )
      else ((h, [], some (unknown_type msg.message_type)), s)

  unfoldable pub receive_data :
      Answers → DeviceAuthStore → Option HiChainHandle → Bytes → Option (Outcome × DeviceAuthStore)
  receive_data a s none raw = none
  receive_data a s (some h) raw = elim (pr.unmarshal (clean_json_data raw)) [
    | none ↦ some ((h, [], some bad_message), s)
    | some msg ↦ some (handle_message a s h msg)
  ]

  unfoldable pub start_auth : Answers → Option HiChainHandle → Option Outcome
  start_auth a none = none
  start_auth a (some h) =
      some (if is_init h.state then start_authentication pr a h else (h, [], some invalid_state))

abbrev pub get_state : Option HiChainHandle → HcState
get_state none = state_failed
get_state (some h) = h.state

-- A nil slice is an empty list.
abbrev pub get_session_key : Option HiChainHandle → Bytes
get_session_key none = []
get_session_key (some h) = h.session_key
