-- ===== src/AuthManager/Getters.antt =====
-- auth_manager.go: what the service is asked for, and the callbacks that device_auth gets from
-- createDeviceAuthCallback.
use dsoftbus_go.Base.{
  ℕ, ◌==◌, nat_eq, if◌then◌else◌, Bool, true, List, map, Option, none, some, Result, ok, err, ◌>>=◌,
}
use dsoftbus_go.Base.Int.{ℤ, pos, negsuc, int_eq}
use dsoftbus_go.Base.Table.{lookup}
use dsoftbus_go.Base.Text.{Bytes}
use dsoftbus_go.Types.{AuthConnInfo, AuthDataHead, module_auth_sdk}
use dsoftbus_go.Conn.{AuthConnectionManager, ConnEvent, ConnError, post_auth_data}
use dsoftbus_go.SessionKey.{KeyError, PersistCall, set_session_key}
use dsoftbus_go.AuthManager.{
  AuthManager, AuthManagerService, AuthConnCallback, DeviceInfo, ManagerError, ManagerCall,
  not_found, no_device_info, put_manager, tell_opened, tell_open_failed,
}
use dsoftbus_go.AuthManager.ById.{manager_of}

-- The pointer to the connection's info may be nil: `ok none`.
unfoldable pub auth_device_get_conn_info :
    AuthManagerService → ℤ → Result ManagerError (Option AuthConnInfo)
auth_device_get_conn_info s auth_id = do m ← manager_of s auth_id; ok m.conn_info

abbrev info_of : AuthManager → Result ManagerError DeviceInfo
info_of m = elim m.device_info [ none ↦ err no_device_info | some d ↦ ok d ]

unfoldable pub auth_device_get_device_uuid : AuthManagerService → ℤ → Result ManagerError Bytes
auth_device_get_device_uuid s auth_id = do m ← manager_of s auth_id; d ← info_of m; ok d.uuid

unfoldable pub auth_device_get_version : AuthManagerService → ℤ → Result ManagerError (ℕ × ℕ)
auth_device_get_version s auth_id = do m ← manager_of s auth_id; d ← info_of m; ok d.version

unfoldable pub auth_device_get_server_side : AuthManagerService → ℤ → Result ManagerError Bool
auth_device_get_server_side s auth_id = do m ← manager_of s auth_id; ok m.is_server

unfoldable pub get_auth_manager_by_auth_id :
    AuthManagerService → ℤ → Result ManagerError AuthManager
get_auth_manager_by_auth_id s auth_id = elim (lookup auth_id s.managers) [
  | none ↦ err not_found
  | some m ↦ ok m
]

unfoldable pub get_auth_manager_by_conn_id :
    AuthManagerService → ℕ → Result ManagerError AuthManager
get_auth_manager_by_conn_id s conn_id = elim (lookup conn_id s.conn_id_to_auth_id) [
  | none ↦ err not_found
  | some auth_id ↦ get_auth_manager_by_auth_id s auth_id
]

unfoldable pub get_all_auth_managers : AuthManagerService → List AuthManager
get_all_auth_managers s = map (λ (e : ℤ × AuthManager). e.1) s.managers

-- The head has no length.
abbrev pub transmit_head : ℤ → AuthDataHead
transmit_head request_id = record {
  data_type = 0;
  module_id = module_auth_sdk;
  seq = request_id;
  flag = pos 0;
  len = 0;
}

unfoldable pub device_auth_on_transmit :
    Option AuthConnectionManager → AuthManager → ℤ → List ℕ → Result ConnError ConnEvent
device_auth_on_transmit c m request_id payload =
    post_auth_data c m.conn_id (transmit_head request_id) payload

unfoldable pub device_auth_on_session_key_returned :
    AuthManagerService
    → AuthManager
    → List ℕ
    → ℕ
    → AuthManagerService × Result KeyError ℤ × List PersistCall
device_auth_on_session_key_returned s m session_key now =
    let (k, r, calls) = set_session_key s.session_key_mgr m.auth_id session_key now now in
    (record s { session_key_mgr = k }, r, calls)

unfoldable pub notify_manager_result : Option AuthConnCallback → AuthManager → ℤ → List ManagerCall
notify_manager_result c m result =
    if result == pos 0
    then tell_opened c m.request_id m.auth_id
    else tell_open_failed c m.request_id result

-- `m` is the manager as the table has it.
unfoldable pub device_auth_on_finish :
    AuthManagerService → AuthManager → AuthManagerService × List ManagerCall
device_auth_on_finish s m = (
  put_manager s (record m { has_auth_passed = true }),
  notify_manager_result s.callback m (pos 0),
)

unfoldable pub device_auth_on_error : AuthManagerService → AuthManager → List ManagerCall
device_auth_on_error s m = notify_manager_result s.callback m (negsuc 0)
