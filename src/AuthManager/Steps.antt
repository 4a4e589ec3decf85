-- ===== src/AuthManager/Steps.antt =====
-- The operations of auth_manager.go as steps of the service's state.
use dsoftbus_go.Base.{ℕ, nat_eq, ◌≡◌, Bool, List, Option, some}
use dsoftbus_go.Base.Int.{ℤ, int_eq}
use dsoftbus_go.Base.Table.{lookup}
use dsoftbus_go.Types.{AuthConnInfo, AuthDataHead}
use dsoftbus_go.AuthSession.{GroupAuthAnswers, SessionWorld}
use dsoftbus_go.Conn.{AuthConnectionManager}
use dsoftbus_go.AuthManager.{AuthManager, AuthConnCallback, AuthWorld, with_service, with_sessions}
use dsoftbus_go.AuthManager.Events.{
  on_auth_connect_result, on_auth_disconnected, on_auth_data_received,
}
use dsoftbus_go.AuthManager.Service.{
  deinit_internal, auth_device_init, auth_device_open_conn, auth_device_close_conn,
}
use dsoftbus_go.AuthManager.ById.{
  auth_device_post_trans_data, auth_manager_set_session_key, auth_manager_get_session_key,
  auth_manager_get_latest_session_key,
}
use dsoftbus_go.AuthManager.Getters.{device_auth_on_finish, device_auth_on_session_key_returned}

-- The layers below go their own way in between.
pub data AuthStep : AuthWorld → AuthWorld → Type 0 where
  initialised :
      (ok : Bool) (callback : Option AuthConnCallback) (w : AuthWorld)
      → AuthStep w (auth_device_init ok callback w).0
  deinitialised : (w : AuthWorld) → AuthStep w (deinit_internal w).0
  opened :
      (a : GroupAuthAnswers) (w : AuthWorld) (info : Option AuthConnInfo) (request_id : ℕ)
      (callback : Option AuthConnCallback) (now : ℕ) (answer : Option ℤ) (later : ℕ)
      → AuthStep w (auth_device_open_conn a w info request_id callback now answer later).0
  closed : (w : AuthWorld) (auth_id : ℤ) → AuthStep w (auth_device_close_conn w auth_id).0
  posted :
      (w : AuthWorld) (auth_id module_id flag : ℤ) (payload : List ℕ) (now : ℕ)
      → AuthStep w (auth_device_post_trans_data w auth_id module_id flag payload now).0
  connect_reported :
      (a : GroupAuthAnswers) (w : AuthWorld) (request_id conn_id : ℕ) (result : ℤ)
      (info : AuthConnInfo) (now : ℕ)
      → AuthStep w (on_auth_connect_result a w request_id conn_id result info now).0
  disconnect_reported :
      (w : AuthWorld) (conn_id : ℕ)
      → AuthStep w (with_service w (on_auth_disconnected w.service conn_id))
  received :
      (a : GroupAuthAnswers) (w : AuthWorld) (conn_id : ℕ) (info : AuthConnInfo)
      (from_server : Bool) (head : AuthDataHead) (payload : List ℕ) (now : ℕ)
      → AuthStep w (on_auth_data_received a w conn_id info from_server head payload now).0
  key_set :
      (w : AuthWorld) (auth_id : ℤ) (key : List ℕ) (now : ℕ)
      → AuthStep w (with_service w (auth_manager_set_session_key w.service auth_id key now).0)
  key_read :
      (w : AuthWorld) (auth_id index : ℤ) (now : ℕ)
      → AuthStep w (with_service w (auth_manager_get_session_key w.service auth_id index now).0)
  latest_key_read :
      (w : AuthWorld) (auth_id : ℤ) (now : ℕ)
      → AuthStep w (with_service w (auth_manager_get_latest_session_key w.service auth_id now).0)
  key_returned :
      (w : AuthWorld) (m : AuthManager) (key : List ℕ) (now : ℕ)
      → AuthStep w (with_service w (device_auth_on_session_key_returned w.service m key now).0)
  finished :
      (w : AuthWorld) (auth_id : ℤ) (m : AuthManager)
      → lookup auth_id w.service.managers ≡ some m
      → AuthStep w (with_service w (device_auth_on_finish w.service m).0)
  session_step : (w : AuthWorld) (s : SessionWorld) → AuthStep w (with_sessions w s)
  connection_step :
      (w : AuthWorld) (c : Option AuthConnectionManager) → AuthStep w (record w { connections = c })

pub data AuthRun : AuthWorld → AuthWorld → Type 0 where
  here : (w : AuthWorld) → AuthRun w w
  then_step : {w w1 w2 : AuthWorld} → AuthRun w w1 → AuthStep w1 w2 → AuthRun w w2
