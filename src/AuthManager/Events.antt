-- ===== src/AuthManager/Events.antt =====
-- auth_manager.go: what the connection layer calls: onAuthConnectResult, onAuthDisconnected and
-- onAuthDataReceived.
use dsoftbus_go.Base.{
  ℕ, ◌==◌, nat_eq, if◌then◌else◌, ◌&&◌, Bool, true, false, List, [], ◌++◌, none, some, ok, err,
}
use dsoftbus_go.Base.Int.{ℤ, pos, negsuc, int_eq}
use dsoftbus_go.Base.Table.{lookup, insert, delete}
use dsoftbus_go.Types.{
  AuthConnInfo, AuthDataHead, module_trust_engine, module_auth_sdk, module_auth_connection,
}
use dsoftbus_go.AuthSession.{
  SessionWorld, GroupAuthAnswers, SessionOutcome, put_session, auth_session_start_auth,
  get_auth_session_by_conn_id, auth_session_process_dev_id_data, auth_session_process_auth_data,
}
use dsoftbus_go.AuthManager.{
  AuthManager, AuthManagerService, AuthWorld, ManagerCall, add_one, with_service, with_sessions,
  put_manager, new_auth_manager, find_by_request_id, tell_open_failed, tell_received,
  group_auth_calls,
}

-- The session of the connection, if there is one, gets the manager.
unfoldable pub link_session : SessionWorld → ℕ → ℤ → SessionWorld
link_session sw conn_id auth_id = elim (get_auth_session_by_conn_id sw.manager conn_id) [
  | err e ↦ sw
  | ok s ↦ put_session sw (record s { auth_manager = some auth_id })
]

abbrev pub connected : AuthManagerService → AuthManager → ℕ → AuthManagerService
connected s m conn_id = record (put_manager s (record m { conn_id = conn_id })) {
  conn_id_to_auth_id = insert conn_id m.auth_id s.conn_id_to_auth_id;
}

-- After AuthSessionStartAuth: `w` has the manager, `m`, already.
unfoldable pub client_started :
    AuthWorld → AuthManager → ℕ → ℕ → SessionOutcome → AuthWorld × List ManagerCall
client_started w m request_id conn_id (sw, calls, some e) = (
  with_sessions w sw,
  group_auth_calls calls ++ tell_open_failed w.service.callback request_id (negsuc 0),
)
client_started w m request_id conn_id (sw, calls, none) =
    (with_sessions w (link_session sw conn_id m.auth_id), group_auth_calls calls)

unfoldable pub connect_failed_for : AuthWorld → AuthManager → ℕ → ℤ → AuthWorld × List ManagerCall
connect_failed_for w m request_id result = (
  with_service w (record w.service { managers = delete m.auth_id w.service.managers }),
  tell_open_failed w.service.callback request_id result,
)

unfoldable pub on_auth_connect_result :
    GroupAuthAnswers → AuthWorld → ℕ → ℕ → ℤ → AuthConnInfo → ℕ → AuthWorld × List ManagerCall
on_auth_connect_result a w request_id conn_id result info now =
    elim (find_by_request_id request_id w.service.managers) [
      | none ↦ (w, [])
      | some m ↦
          if result == pos 0
          then client_started (with_service w (connected w.service m conn_id)) m request_id conn_id
              (auth_session_start_auth a w.sessions m.auth_seq request_id conn_id (some info) false
                now)
          else connect_failed_for w m request_id result
    ]

unfoldable pub on_auth_disconnected : AuthManagerService → ℕ → AuthManagerService
on_auth_disconnected s conn_id = elim (lookup conn_id s.conn_id_to_auth_id) [
  | none ↦ s
  | some auth_id ↦ record s {
    managers = delete auth_id s.managers;
    conn_id_to_auth_id = delete conn_id s.conn_id_to_auth_id;
  }
]

-- The server's manager of a new connection, and the counters it has used.
abbrev pub server_manager : AuthManagerService → ℕ → AuthConnInfo → ℕ → AuthManager
server_manager s conn_id info now =
    new_auth_manager (add_one s.auth_id_counter) (add_one s.seq_counter) conn_id (some info) true
      now 0

abbrev pub with_server_manager : AuthManagerService → AuthManager → AuthManagerService
with_server_manager s m = record (put_manager s m) {
  conn_id_to_auth_id = insert m.conn_id m.auth_id s.conn_id_to_auth_id;
  auth_id_counter = m.auth_id;
  seq_counter = m.auth_seq;
}

unfoldable pub deliver_to_session : AuthWorld → SessionOutcome → AuthWorld × List ManagerCall
deliver_to_session w (sw, calls, e) = (with_sessions w sw, group_auth_calls calls)

-- The sessions are found by the sequence number of the packet.
unfoldable pub route_data :
    GroupAuthAnswers → AuthWorld → ℤ → AuthDataHead → List ℕ → AuthWorld × List ManagerCall
route_data a w auth_id head payload =
    if head.module_id == module_trust_engine
    then deliver_to_session w (auth_session_process_dev_id_data a w.sessions head.seq payload)
    else if head.module_id == module_auth_sdk
    then deliver_to_session w (auth_session_process_auth_data a w.sessions head.seq payload)
    else if head.module_id == module_auth_connection
    then (w, [])
    else (w, tell_received w.service.callback auth_id head payload)

-- With the manager's time of activity.
unfoldable pub data_for :
    GroupAuthAnswers → AuthWorld → ℤ → AuthDataHead → List ℕ → ℕ → AuthWorld × List ManagerCall
data_for a w auth_id head payload now = elim (lookup auth_id w.service.managers) [
  | none ↦ (w, [])
  | some m ↦
      route_data a (with_service w (put_manager w.service (record m { last_active_time = now })))
        auth_id head payload
]

unfoldable pub server_started :
    GroupAuthAnswers
    → AuthWorld
    → AuthManager
    → AuthDataHead
    → List ℕ
    → ℕ
    → SessionOutcome
    → AuthWorld × List ManagerCall
server_started a w m head payload now (sw, calls, some e) =
    (with_sessions w sw, group_auth_calls calls)
server_started a w m head payload now (sw, calls, none) =
    let (w', more) =
      data_for a (with_sessions w (link_session sw m.conn_id m.auth_id)) m.auth_id head payload
        now in
    (w', group_auth_calls calls ++ more)

unfoldable pub on_auth_data_received :
    GroupAuthAnswers
    → AuthWorld
    → ℕ
    → AuthConnInfo
    → Bool
    → AuthDataHead
    → List ℕ
    → ℕ
    → AuthWorld × List ManagerCall
on_auth_data_received a w conn_id info from_server head payload now =
    elim (lookup conn_id w.service.conn_id_to_auth_id) [
      | some auth_id ↦ data_for a w auth_id head payload now
      | none ↦
          if from_server && head.module_id == module_auth_sdk
          then (let m = server_manager w.service conn_id info now in
              server_started a (with_service w (with_server_manager w.service m)) m head payload now
                (auth_session_start_auth a w.sessions m.auth_seq 0 conn_id (some info) true now))
          else (w, [])
    ]
