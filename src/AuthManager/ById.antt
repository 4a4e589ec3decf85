-- ===== src/AuthManager/ById.antt =====
-- auth_manager.go: what the application does with the id of a manager: AuthDevicePostTransData and the
-- session keys.
use dsoftbus_go.Base.{
  ℕ, ◌%◌, ◌^◌, nat_eq, if◌then◌else◌, List, [], length, none, some, Result, ok, err,
}
use dsoftbus_go.Base.Int.{ℤ, int_eq}
use dsoftbus_go.Base.Table.{lookup}
use dsoftbus_go.Types.{AuthDataHead, module_to_data_type}
use dsoftbus_go.Conn.{ConnEvent, post_auth_data}
use dsoftbus_go.SessionKey.{
  SessionKey, SessionKeyManager, KeyError, PersistCall, set_session_key, get_session_key,
  get_latest_session_key,
}
use dsoftbus_go.AuthManager.{
  AuthManager, AuthManagerService, AuthWorld, ManagerError, not_initialized, not_found,
  connection_failed, key_failed, with_service, put_manager,
}

-- The manager of an id, where the service is initialised.
unfoldable pub manager_of : AuthManagerService → ℤ → Result ManagerError AuthManager
manager_of s auth_id =
    if s.initialized
    then elim (lookup auth_id s.managers) [ none ↦ err not_found | some m ↦ ok m ]
    else err not_initialized

abbrev pub trans_head : AuthManager → ℤ → ℤ → List ℕ → AuthDataHead
trans_head m module_id flag payload = record {
  data_type = module_to_data_type module_id;
  module_id = module_id;
  seq = m.auth_seq;
  flag = flag;
  len = length payload % 2 ^ 32;
}

-- With the write to the socket, whose answer is returned.
unfoldable pub auth_device_post_trans_data :
    AuthWorld → ℤ → ℤ → ℤ → List ℕ → ℕ → AuthWorld × Result ManagerError ConnEvent
auth_device_post_trans_data w auth_id module_id flag payload now =
    elim (manager_of w.service auth_id) [
      | err e ↦ (w, err e)
      | ok m ↦
          elim (post_auth_data w.connections m.conn_id (trans_head m module_id flag payload)
            payload) [
              | err e ↦ (w, err (connection_failed e))
              | ok event ↦ (
                with_service w (put_manager w.service (record m { last_active_time = now })),
                ok event,
              )
            ]
    ]

abbrev with_keys : AuthManagerService → SessionKeyManager → AuthManagerService
with_keys s k = record s { session_key_mgr = k }

abbrev or_key_failed : {A : Type 0} → Result KeyError A → Result ManagerError A
or_key_failed (ok a) = ok a
or_key_failed (err e) = err (key_failed e)

unfoldable pub auth_manager_set_session_key :
    AuthManagerService
    → ℤ
    → List ℕ
    → ℕ
    → AuthManagerService × Result ManagerError ℤ × List PersistCall
auth_manager_set_session_key s auth_id session_key now = elim (manager_of s auth_id) [
  | err e ↦ (s, err e, [])
  | ok m ↦
      let (k, r, calls) = set_session_key s.session_key_mgr auth_id session_key now now in
      (with_keys s k, or_key_failed r, calls)
]

unfoldable pub auth_manager_get_session_key :
    AuthManagerService → ℤ → ℤ → ℕ → AuthManagerService × Result ManagerError SessionKey
auth_manager_get_session_key s auth_id index now = elim (manager_of s auth_id) [
  | err e ↦ (s, err e)
  | ok m ↦
      let (k, r) = get_session_key s.session_key_mgr auth_id index now in
      (with_keys s k, or_key_failed r)
]

unfoldable pub auth_manager_get_latest_session_key :
    AuthManagerService → ℤ → ℕ → AuthManagerService × Result ManagerError SessionKey
auth_manager_get_latest_session_key s auth_id now = elim (manager_of s auth_id) [
  | err e ↦ (s, err e)
  | ok m ↦
      let (k, r) = get_latest_session_key s.session_key_mgr auth_id now in
      (with_keys s k, or_key_failed r)
]
