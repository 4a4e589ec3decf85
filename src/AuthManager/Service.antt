-- ===== src/AuthManager/Service.antt =====
-- auth_manager.go: the interface to the application: AuthDeviceInit, AuthDeviceDeinit, AuthDeviceOpenConn and
-- AuthDeviceCloseConn.
use dsoftbus_go.Base.{
  ℕ, ◌==◌, nat_eq, if◌then◌else◌, Bool, true, false, List, [], ◌∷◌, ◌++◌, map, Option, none, some,
  Result, ok, err,
}
use dsoftbus_go.Base.Int.{ℤ, int_eq}
use dsoftbus_go.Base.Table.{Table, lookup, delete}
use dsoftbus_go.Types.{AuthConnInfo}
use dsoftbus_go.Conn.{
  AuthConnectionManager, ConnEvent, ConnError, connect_result, auth_conn_init, auth_conn_deinit,
  connect_auth_device, disconnect_auth_device,
}
use dsoftbus_go.SessionKey.{new_session_key_manager}
use dsoftbus_go.AuthSession.{GroupAuthAnswers, SessionWorld, auth_session_init, auth_session_deinit}
use dsoftbus_go.AuthManager.{
  AuthManager, AuthManagerService, AuthConnCallback, AuthWorld, ManagerError, ManagerCall,
  callback_nil, init_failed, not_initialized, no_conn_info, connection_failed, conn_event,
  device_auth_destroyed, add_one, with_service, put_manager, new_auth_manager,
}
use dsoftbus_go.AuthManager.Events.{on_auth_connect_result}

-- The ids of the connections that are there, 0 being none.
unfoldable pub conn_ids : Table ℤ AuthManager → List ℕ
conn_ids [] = []
conn_ids (entry ∷ t) = if entry.1.conn_id == 0 then conn_ids t else entry.1.conn_id ∷ conn_ids t

unfoldable pub disconnect_each :
    Option AuthConnectionManager → List ℕ → Option AuthConnectionManager × List ConnEvent
disconnect_each c [] = (c, [])
disconnect_each c (conn_id ∷ ids) =
    let (c', events) = disconnect_auth_device c conn_id in
    let (c'', more) = disconnect_each c' ids in (c'', events ++ more)

abbrev pub conn_events : List ConnEvent → List ManagerCall
conn_events events = map (λ (e : ConnEvent). conn_event e) events

abbrev pub deinit_sessions : SessionWorld → SessionWorld
deinit_sessions w = record w { manager = auth_session_deinit w.manager }

unfoldable pub deinit_internal : AuthWorld → AuthWorld × List ManagerCall
deinit_internal w =
    if w.service.initialized
    then (let (c, events) = disconnect_each w.connections (conn_ids w.service.managers) in
        let (c', more) = auth_conn_deinit c in
        (
          record {
            service = record w.service {
              managers = [];
              conn_id_to_auth_id = [];
              session_key_mgr = new_session_key_manager;
              callback = none;
              initialized = false;
            };
            sessions = deinit_sessions w.sessions;
            connections = c';
          },
          conn_events (events ++ more) ++ device_auth_destroyed ∷ [],
        ))
    else (w, [])

-- `device_auth_ok`: InitDeviceAuthService succeeds.
unfoldable pub init_layers :
    Bool → AuthConnCallback → AuthWorld → AuthWorld × List ManagerCall × Option ManagerError
init_layers false callback w = (w, [], some init_failed)
init_layers true callback w =
    let sessions = record w.sessions { manager = auth_session_init w.sessions.manager } in
    elim (auth_conn_init (
      some
        (record { on_connect_result = true; on_disconnected = true; on_data_received = true }))) [
          | err e ↦ (
            record w { sessions = sessions },
            device_auth_destroyed ∷ [],
            some (connection_failed e),
          )
          | ok c ↦ (
            record {
              service = record w.service { callback = some callback; initialized = true };
              sessions = sessions;
              connections = some c;
            },
            [],
            none,
          )
        ]

unfoldable pub auth_device_init :
    Bool → Option AuthConnCallback → AuthWorld → AuthWorld × List ManagerCall × Option ManagerError
auth_device_init device_auth_ok none w = (w, [], some callback_nil)
auth_device_init device_auth_ok (some callback) w =
    let (w', calls) = deinit_internal w in
    let (w'', more, e) = init_layers device_auth_ok callback w' in (w'', calls ++ more, e)

-- What ConnectAuthDevice reports, it reports while it runs.
unfoldable pub handle_event :
    GroupAuthAnswers → AuthWorld → ConnEvent → ℕ → AuthWorld × List ManagerCall
handle_event a w (connect_result request_id conn_id result info) now =
    on_auth_connect_result a w request_id conn_id result info now
handle_event a w event now = (w, conn_event event ∷ [])

unfoldable pub handle_events :
    GroupAuthAnswers → AuthWorld → List ConnEvent → ℕ → AuthWorld × List ManagerCall
handle_events a w [] now = (w, [])
handle_events a w (event ∷ events) now =
    let (w', calls) = handle_event a w event now in
    let (w'', more) = handle_events a w' events now in (w'', calls ++ more)

abbrev pub set_callback : Option AuthConnCallback → AuthManagerService → AuthManagerService
set_callback none s = s
set_callback (some c) s = record s { callback = some c }

abbrev pub client_manager : AuthManagerService → AuthConnInfo → ℕ → ℕ → AuthManager
client_manager s info request_id now =
    new_auth_manager (add_one s.auth_id_counter) (add_one s.seq_counter) 0 (some info) false now
      request_id

abbrev pub with_client_manager : AuthManagerService → AuthManager → AuthManagerService
with_client_manager s m = record (put_manager s m) {
  auth_id_counter = m.auth_id;
  seq_counter = m.auth_seq;
}

abbrev pub without_manager : AuthWorld → ℤ → AuthWorld
without_manager w auth_id =
    with_service w (record w.service { managers = delete auth_id w.service.managers })

unfoldable pub after_connect :
    ℤ
    → Result ConnError (Unit {0})
    → AuthWorld × List ManagerCall
    → AuthWorld × List ManagerCall × Option ManagerError
after_connect auth_id (ok u) (w, calls) = (w, calls, none)
after_connect auth_id (err e) (w, calls) =
    (without_manager w auth_id, calls, some (connection_failed e))

-- `answer` is the descriptor that was connected, at the time `later`.
unfoldable pub open_with :
    GroupAuthAnswers
    → AuthWorld
    → AuthConnInfo
    → ℕ
    → ℕ
    → Option ℤ
    → ℕ
    → AuthWorld × List ManagerCall × Option ManagerError
open_with a w info request_id now answer later =
    let m = client_manager w.service info request_id now in
    let (c, events, r) =
      connect_auth_device w.connections request_id (some info) now answer later in
    after_connect m.auth_id r (
      handle_events a (record w { service = with_client_manager w.service m; connections = c })
        events later)

unfoldable pub auth_device_open_conn :
    GroupAuthAnswers
    → AuthWorld
    → Option AuthConnInfo
    → ℕ
    → Option AuthConnCallback
    → ℕ
    → Option ℤ
    → ℕ
    → AuthWorld × List ManagerCall × Option ManagerError
auth_device_open_conn a w none request_id callback now answer later =
    (w, [], some (if w.service.initialized then no_conn_info else not_initialized))
auth_device_open_conn a w (some info) request_id callback now answer later =
    if w.service.initialized
    then open_with a (with_service w (set_callback callback w.service)) info request_id now answer
        later
    else (w, [], some not_initialized)

unfoldable pub auth_device_close_conn : AuthWorld → ℤ → AuthWorld × List ConnEvent
auth_device_close_conn w auth_id =
    if w.service.initialized
    then elim (lookup auth_id w.service.managers) [
      | none ↦ (w, [])
      | some m ↦
          let (c, events) = disconnect_auth_device w.connections m.conn_id in
          (
            record w {
              service = record w.service {
                managers = delete auth_id w.service.managers;
                conn_id_to_auth_id = delete m.conn_id w.service.conn_id_to_auth_id;
              };
              connections = c;
            },
            events,
          )
    ]
    else (w, [])
