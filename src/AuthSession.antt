-- ===== src/AuthSession.antt =====
-- pkg/authentication/auth_session.go: the sessions of the authentication manager. The global manager and
-- the contexts are the state. device_auth's answers are arguments, and the calls of its AuthDevice and
-- ProcessData are in the results: what they call back are operations of their own. A session's
-- AuthManager is given by its id.
pub mod Steps
pub mod Agreement
pub mod Once
pub mod Runs
use dsoftbus_go.Base.{
  ℕ, ◌+◌, ◌%◌, ◌^◌, ◌==◌, nat_eq, if◌then◌else◌, ◌&&◌, Bool, true, false, List, [], ◌∷◌, length,
  Option, none, ◌++◌, some, Result, ok, err,
}
use dsoftbus_go.Base.Int.{ℤ, pos, negsuc, ◌+ℤ◌, int64, uint64, int_eq}
use dsoftbus_go.Base.Table.{Table, lookup, insert}
use dsoftbus_go.Base.Text.{Bytes}
use dsoftbus_go.Types.{AuthConnInfo, AuthChannelData, module_auth_sdk}
use dsoftbus_go.Fds.{ConnectionManager}
use dsoftbus_go.Post.{PostError, auth_post_channel_data}
use dsoftbus_go.SessionKey.{SessionKeyManager, KeyError, PersistCall, set_session_key}
use dsoftbus_go.SessionContext.{Contexts, AuthSessionContext, set_auth_session_context}

pub data AuthSessionState : Type 0 where
  init_state sync_device_id device_auth auth_done auth_failed : AuthSessionState

pub record AuthSession : Type 0 where
  pub auth_seq : ℤ
  pub request_id : ℕ
  pub conn_id : ℕ
  pub conn_info : Option AuthConnInfo
  pub is_server : Bool
  pub state : AuthSessionState
  pub auth_manager : Option ℤ
  pub create_time : ℕ
  pub last_update_time : ℕ

pub record AuthSessionManager : Type 0 where
  pub sessions : Table ℤ AuthSession
  pub conn_id_to_seq : Table ℕ ℤ
  pub seq_counter : ℤ
  pub initialized : Bool

-- The session manager and the contexts.
pub record SessionWorld : Type 0 where
  pub manager : AuthSessionManager
  pub contexts : Contexts

pub data SessionError : Type 0 where
  not_initialized already_exists not_found no_device_info no_group_auth : SessionError
  auth_device_failed process_data_failed : SessionError

-- A call of GroupAuthManager, by the session's number.
pub data GroupAuthCall : Type 0 where
  auth_device_called : ℤ → GroupAuthCall
  process_data_called : ℤ → Bytes → GroupAuthCall

-- Whether the device's id is known, the group authentication is there, and its two calls succeed.
pub record GroupAuthAnswers : Type 0 where
  pub local_udid : Option Bytes
  pub has_instance : Bool
  pub auth_device_ok : Bool
  pub process_data_ok : Bool

abbrev pub SessionOutcome : Type 0
SessionOutcome = SessionWorld × List GroupAuthCall × Option SessionError

abbrev pub new_auth_session_manager : AuthSessionManager
new_auth_session_manager = record {
  sessions = [];
  conn_id_to_seq = [];
  seq_counter = pos 0;
  initialized = false;
}

unfoldable pub auth_session_init : AuthSessionManager → AuthSessionManager
auth_session_init m = record m { initialized = true }

unfoldable pub auth_session_deinit : AuthSessionManager → AuthSessionManager
auth_session_deinit m =
    if m.initialized
    then record m { sessions = []; conn_id_to_seq = []; initialized = false }
    else m

-- The session is behind a pointer in Go: what is stored is what the table has.
abbrev pub put_session : SessionWorld → AuthSession → SessionWorld
put_session w s = record w {
  manager = record w.manager { sessions = insert s.auth_seq s w.manager.sessions };
}

abbrev pub with_state : AuthSession → AuthSessionState → AuthSession
with_state s st = record s { state = st }

-- "888888"
abbrev fixed_pin : Bytes
fixed_pin = 56 ∷ 56 ∷ 56 ∷ 56 ∷ 56 ∷ 56 ∷ []

abbrev pub session_context : AuthSession → Bytes → AuthSessionContext
session_context s udid = record {
  channel_id = int64 s.conn_id;
  pin_code = fixed_pin;
  group_id = [];
  request_id = s.auth_seq;
  local_device_id = udid;
  peer_device_id = [];
}

unfoldable pub start_hichain_auth : GroupAuthAnswers → SessionWorld → AuthSession → SessionOutcome
start_hichain_auth a w s = elim a.local_udid [
  | none ↦ (put_session w (with_state s auth_failed), [], some no_device_info)
  | some udid ↦
      let w1 = record w {
        contexts = set_auth_session_context w.contexts s.auth_seq (session_context s udid);
      } in
      if a.has_instance
      then if a.auth_device_ok
        then (put_session w1 s, auth_device_called s.auth_seq ∷ [], none)
        else (
          put_session w1 (with_state s auth_failed),
          auth_device_called s.auth_seq ∷ [],
          some auth_device_failed,
        )
      else (put_session w1 (with_state s auth_failed), [], some no_group_auth)
]

-- A server waits for the peer's device id; a client goes on to HiChain at once.
unfoldable pub start_state_machine : GroupAuthAnswers → SessionWorld → AuthSession → SessionOutcome
start_state_machine a w s =
    if s.is_server
    then (put_session w (with_state s sync_device_id), [], none)
    else start_hichain_auth a w (with_state s device_auth)

abbrev pub new_auth_session : ℤ → ℕ → ℕ → Option AuthConnInfo → Bool → ℕ → AuthSession
new_auth_session auth_seq request_id conn_id conn_info is_server now = record {
  auth_seq = auth_seq;
  request_id = request_id;
  conn_id = conn_id;
  conn_info = conn_info;
  is_server = is_server;
  state = init_state;
  auth_manager = none;
  create_time = now;
  last_update_time = now;
}

abbrev pub add_session : SessionWorld → AuthSession → SessionWorld
add_session w s = record w {
  manager = record w.manager {
    sessions = insert s.auth_seq s w.manager.sessions;
    conn_id_to_seq = insert s.conn_id s.auth_seq w.manager.conn_id_to_seq;
  };
}

unfoldable pub auth_session_start_auth :
    GroupAuthAnswers → SessionWorld → ℤ → ℕ → ℕ → Option AuthConnInfo → Bool → ℕ → SessionOutcome
auth_session_start_auth a w auth_seq request_id conn_id conn_info is_server now =
    if w.manager.initialized
    then elim (lookup auth_seq w.manager.sessions) [
      | some s ↦ (w, [], some already_exists)
      | none ↦
          let s = new_auth_session auth_seq request_id conn_id conn_info is_server now in
          start_state_machine a (add_session w s) s
    ]
    else (w, [], some not_initialized)

abbrev pub is_waiting : AuthSessionState → Bool
is_waiting sync_device_id = true
is_waiting _ = false

-- The server's first data starts HiChain.
unfoldable pub start_if_waiting : GroupAuthAnswers → SessionWorld → AuthSession → SessionOutcome
start_if_waiting a w s =
    if s.is_server && is_waiting s.state
    then start_hichain_auth a w (with_state s device_auth)
    else (w, [], none)

unfoldable pub auth_session_process_dev_id_data :
    GroupAuthAnswers → SessionWorld → ℤ → Bytes → SessionOutcome
auth_session_process_dev_id_data a w auth_seq payload = elim (lookup auth_seq w.manager.sessions) [
  | none ↦ (w, [], some not_found)
  | some s ↦ start_if_waiting a w s
]

-- The data is handed on unless HiChain could not be started.
abbrev pub process_after : GroupAuthAnswers → ℤ → Bytes → SessionOutcome → SessionOutcome
process_after a auth_seq payload (w, calls, some e) = (w, calls, some e)
process_after a auth_seq payload (w, calls, none) =
    if a.has_instance
    then (
      w,
      calls ++ process_data_called auth_seq payload ∷ [],
      if a.process_data_ok then none else some process_data_failed,
    )
    else (w, calls, some no_group_auth)

unfoldable pub auth_session_process_auth_data :
    GroupAuthAnswers → SessionWorld → ℤ → Bytes → SessionOutcome
auth_session_process_auth_data a w auth_seq payload = elim (lookup auth_seq w.manager.sessions) [
  | none ↦ (w, [], some not_found)
  | some s ↦ process_after a auth_seq payload (start_if_waiting a w s)
]

abbrev pub set_state : SessionWorld → ℤ → AuthSessionState → SessionWorld × Option SessionError
set_state w auth_seq st = elim (lookup auth_seq w.manager.sessions) [
  | none ↦ (w, some not_found)
  | some s ↦ (put_session w (with_state s st), none)
]

unfoldable pub auth_session_handle_auth_finish :
    SessionWorld → ℤ → SessionWorld × Option SessionError
auth_session_handle_auth_finish w auth_seq = set_state w auth_seq auth_done

unfoldable pub auth_session_handle_auth_error :
    SessionWorld → ℤ → SessionWorld × Option SessionError
auth_session_handle_auth_error w auth_seq = set_state w auth_seq auth_failed

unfoldable pub get_auth_session_by_conn_id :
    AuthSessionManager → ℕ → Result SessionError AuthSession
get_auth_session_by_conn_id m conn_id = elim (lookup conn_id m.conn_id_to_seq) [
  | none ↦ err not_found
  | some auth_seq ↦ elim (lookup auth_seq m.sessions) [ none ↦ err not_found | some s ↦ ok s ]
]

-- `atomic.AddInt64`, which wraps.
unfoldable pub generate_auth_seq : AuthSessionManager → AuthSessionManager × ℤ
generate_auth_seq m =
    let next = int64 (uint64 (m.seq_counter +ℤ pos 1)) in (record m { seq_counter = next }, next)

-- The callbacks of a session: OnTransmit, OnSessionKeyReturned, OnFinish and OnError.
abbrev pub transmitted_data : ℤ → Bytes → AuthChannelData
transmitted_data request_id bytes = record {
  module_id = module_auth_sdk;
  seq = request_id;
  flag = pos 0;
  len = length bytes % 2 ^ 32;
  payload = some bytes;
}

module _ {C : Type 0} (is_tcp : C → Bool) where
  abbrev pub on_transmit :
      Option (ConnectionManager C) → AuthSession → ℤ → Bytes → Result PostError (C × List ℕ)
  on_transmit sockets s request_id bytes =
      auth_post_channel_data is_tcp sockets (pos (s.conn_id % 2 ^ 32))
        (some (transmitted_data request_id bytes))

-- A session that has no AuthManager drops the key.
unfoldable pub on_session_key_returned :
    SessionKeyManager
    → AuthSession
    → Bytes
    → ℕ
    → SessionKeyManager × Option (Result KeyError ℤ) × List PersistCall
on_session_key_returned keys s session_key now = elim s.auth_manager [
  | none ↦ (keys, none, [])
  | some auth_id ↦
      let (keys', r, calls) = set_session_key keys auth_id session_key now now in
      (keys', some r, calls)
]

-- What the application is told: the request and the id, or the request alone.
pub data AuthResultCall : Type 0 where
  conn_opened : ℕ → ℤ → AuthResultCall
  conn_open_failed : ℕ → AuthResultCall

-- Which of the application's two callbacks are set.
pub record ResultCallbacks : Type 0 where
  pub on_conn_opened : Bool
  pub on_conn_open_failed : Bool

unfoldable pub notify_auth_result :
    Option ResultCallbacks → AuthSession → Bool → List AuthResultCall
notify_auth_result none s success = []
notify_auth_result (some c) s true =
    if c.on_conn_opened
    then conn_opened s.request_id (elim s.auth_manager [ none ↦ pos 0 | some id ↦ id ]) ∷ []
    else []
notify_auth_result (some c) s false =
    if c.on_conn_open_failed then conn_open_failed s.request_id ∷ [] else []

-- With the AuthManager that has now passed the authentication. `s` is the session as the table has it.
unfoldable pub on_finish :
    Option ResultCallbacks
    → SessionWorld
    → AuthSession
    → SessionWorld × Option ℤ × List AuthResultCall
on_finish c w s =
    (put_session w (with_state s auth_done), s.auth_manager, notify_auth_result c s true)

unfoldable pub on_error :
    Option ResultCallbacks → SessionWorld → AuthSession → SessionWorld × List AuthResultCall
on_error c w s = (put_session w (with_state s auth_failed), notify_auth_result c s false)
