-- ===== src/AuthManager.antt =====
-- pkg/authentication/auth_manager.go: the service that binds requests, connections, sessions and keys. The
-- three global managers are the state: the service itself, the sessions and the connections. What the
-- layers below call back while a call runs is done within it; device_auth's answers are arguments.
pub mod Events
pub mod Service
pub mod ById
pub mod Getters
pub mod Steps
pub mod Invariant
pub mod Reachable
pub mod Routing
pub mod Closing
pub mod Sending
pub mod Opening
pub mod Runs
use dsoftbus_go.Base.{
  ℕ, ◌==◌, nat_eq, if◌then◌else◌, Bool, true, false, List, [], ◌∷◌, map, Option, none, some,
}
use dsoftbus_go.Base.Int.{ℤ, pos, negsuc, ◌+ℤ◌, int64, uint64, int_eq}
use dsoftbus_go.Base.Table.{Table, lookup, insert}
use dsoftbus_go.Base.Text.{Bytes}
use dsoftbus_go.Types.{AuthConnInfo, AuthDataHead}
use dsoftbus_go.Conn.{AuthConnectionManager, ConnEvent, ConnError}
use dsoftbus_go.SessionKey.{SessionKeyManager, KeyError, new_session_key_manager}
use dsoftbus_go.AuthSession.{SessionWorld, GroupAuthCall}

-- The peer's device info, as far as it is read.
pub record DeviceInfo : Type 0 where
  pub uuid : Bytes
  pub version : ℕ × ℕ

pub record AuthManager : Type 0 where
  pub auth_id : ℤ
  pub auth_seq : ℤ
  pub conn_id : ℕ
  pub conn_info : Option AuthConnInfo
  pub is_server : Bool
  pub has_auth_passed : Bool
  pub last_active_time : ℕ
  pub device_info : Option DeviceInfo
  pub request_id : ℕ

-- Which of the application's callbacks are set.
pub record AuthConnCallback : Type 0 where
  pub opened : Bool
  pub open_failed : Bool
  pub received : Bool

-- The managers share the service's keys, so these stand in the service alone.
pub record AuthManagerService : Type 0 where
  pub managers : Table ℤ AuthManager
  pub conn_id_to_auth_id : Table ℕ ℤ
  pub session_key_mgr : SessionKeyManager
  pub callback : Option AuthConnCallback
  pub initialized : Bool
  pub auth_id_counter : ℤ
  pub seq_counter : ℤ

pub record AuthWorld : Type 0 where
  pub service : AuthManagerService
  pub sessions : SessionWorld
  pub connections : Option AuthConnectionManager

pub data ManagerError : Type 0 where
  callback_nil init_failed not_initialized no_conn_info not_found no_device_info : ManagerError
  connection_failed : ConnError → ManagerError
  key_failed : KeyError → ManagerError

-- What the application is told, and what the other parts are called with.
pub data ManagerCall : Type 0 where
  on_conn_opened : ℕ → ℤ → ManagerCall
  on_conn_open_failed : ℕ → ℤ → ManagerCall
  on_data_received : ℤ → AuthDataHead → List ℕ → ManagerCall
  group_auth : GroupAuthCall → ManagerCall
  conn_event : ConnEvent → ManagerCall
  device_auth_destroyed : ManagerCall

abbrev pub new_auth_manager_service : AuthManagerService
new_auth_manager_service = record {
  managers = [];
  conn_id_to_auth_id = [];
  session_key_mgr = new_session_key_manager;
  callback = none;
  initialized = false;
  auth_id_counter = pos 1000;
  seq_counter = pos 1000;
}

-- `atomic.AddInt64(c, 1)`
abbrev pub add_one : ℤ → ℤ
add_one c = int64 (uint64 (c +ℤ pos 1))

abbrev pub with_service : AuthWorld → AuthManagerService → AuthWorld
with_service w s = record w { service = s }

abbrev pub with_sessions : AuthWorld → SessionWorld → AuthWorld
with_sessions w s = record w { sessions = s }

-- A manager is behind a pointer in Go: what is stored is what the table has.
abbrev pub put_manager : AuthManagerService → AuthManager → AuthManagerService
put_manager s m = record s { managers = insert m.auth_id m s.managers }

abbrev pub new_auth_manager : ℤ → ℤ → ℕ → Option AuthConnInfo → Bool → ℕ → ℕ → AuthManager
new_auth_manager auth_id auth_seq conn_id conn_info is_server now request_id = record {
  auth_id = auth_id;
  auth_seq = auth_seq;
  conn_id = conn_id;
  conn_info = conn_info;
  is_server = is_server;
  has_auth_passed = false;
  last_active_time = now;
  device_info = none;
  request_id = request_id;
}

-- The first in the order of iteration.
unfoldable pub find_by_request_id : ℕ → Table ℤ AuthManager → Option AuthManager
find_by_request_id request_id [] = none
find_by_request_id request_id (entry ∷ t) =
    if entry.1.request_id == request_id then some entry.1 else find_by_request_id request_id t

unfoldable pub tell_open_failed : Option AuthConnCallback → ℕ → ℤ → List ManagerCall
tell_open_failed none request_id reason = []
tell_open_failed (some c) request_id reason =
    if c.open_failed then on_conn_open_failed request_id reason ∷ [] else []

unfoldable pub tell_opened : Option AuthConnCallback → ℕ → ℤ → List ManagerCall
tell_opened none request_id auth_id = []
tell_opened (some c) request_id auth_id =
    if c.opened then on_conn_opened request_id auth_id ∷ [] else []

unfoldable pub tell_received :
    Option AuthConnCallback → ℤ → AuthDataHead → List ℕ → List ManagerCall
tell_received none auth_id head payload = []
tell_received (some c) auth_id head payload =
    if c.received then on_data_received auth_id head payload ∷ [] else []

abbrev pub group_auth_calls : List GroupAuthCall → List ManagerCall
group_auth_calls calls = map (λ (c : GroupAuthCall). group_auth c) calls
