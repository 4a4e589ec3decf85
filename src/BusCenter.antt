-- ===== src/BusCenter.antt =====
-- pkg/bus_center: the ledger of the network's nodes (net_ledger.go), the builder that changes it
-- (net_builder.go) and the bus center over both (bus_center.go). A node is behind a pointer in Go: what is
-- stored is what the ledger has. Callbacks run in goroutines of their own, so the calls have no order.
pub mod Ledger
pub mod Joins
pub mod Runs
use Prim.Native.String.{String}
use dsoftbus_go.Base.{
  ℕ, suc, ◌+◌, ◌%◌, ◌^◌, ◌==◌, nat_eq, if◌then◌else◌, Bool, true, false, List, [], ◌∷◌, ◌++◌, map,
  Option, none, some,
}
use dsoftbus_go.Base.Int.{ℤ, pos}
use dsoftbus_go.Base.Table.{Table, lookup, insert, delete}
use dsoftbus_go.Base.Text.{Bytes, list_eq}
use dsoftbus_go.Types.{AuthConnInfo, auth_link_type_wifi}
use dsoftbus_go.AuthSession.{GroupAuthAnswers}
use dsoftbus_go.AuthManager.{AuthWorld, ManagerCall, ManagerError}
use dsoftbus_go.AuthManager.Service.{auth_device_open_conn}

pub data NodeStatus : Type 0 where
  offline online : NodeStatus

pub record NodeInfo : Type 0 where
  pub network_id : Bytes
  pub device_id : Bytes
  pub device_name : Bytes
  pub device_type : ℤ
  pub status : NodeStatus
  pub auth_seq : ℤ
  pub discovery_type : Bytes
  pub connect_addr : Bytes
  pub join_time : ℕ
  pub last_seen : ℕ

pub data LnnEvent : Type 0 where
  node_online node_offline node_info_changed : LnnEvent

abbrev pub NetLedger : Type 0
NetLedger = Table Bytes NodeInfo

abbrev pub add_node : NetLedger → NodeInfo → NetLedger
add_node t node = insert node.network_id node t

abbrev pub remove_node : NetLedger → Bytes → NetLedger
remove_node t network_id = delete network_id t

abbrev pub get_node : NetLedger → Bytes → Option NodeInfo
get_node t network_id = lookup network_id t

unfoldable pub get_all_nodes : NetLedger → List NodeInfo
get_all_nodes t = map (λ (e : Bytes × NodeInfo). e.1) t

abbrev pub is_online : NodeStatus → Bool
is_online online = true
is_online offline = false

unfoldable pub get_online_nodes : NetLedger → List NodeInfo
get_online_nodes [] = []
get_online_nodes (entry ∷ t) =
    if is_online entry.1.status then entry.1 ∷ get_online_nodes t else get_online_nodes t

abbrev pub with_status : NodeInfo → NodeStatus → ℕ → NodeInfo
with_status node status now = record node { status = status; last_seen = now }

unfoldable pub update_node_status : NetLedger → Bytes → NodeStatus → ℕ → NetLedger
update_node_status t network_id status now = elim (lookup network_id t) [
  | none ↦ t
  | some node ↦ insert network_id (with_status node status now) t
]

-- What JoinLNN and LeaveLNN were given is known by its request; the other callbacks by their place.
pub data AuthCallback : Type 0 where
  given : (on_auth_success on_auth_failed : Bool) → AuthCallback
  of_join : (request_id : ℕ) (has_callback : Bool) → AuthCallback

pub record LocalDeviceInfo : Type 0 where
  pub udid : Bytes
  pub uuid : Bytes
  pub device_id : Bytes
  pub device_name : Bytes
  pub device_type : Bytes
  pub auth_port : ℤ

-- The builder's callbacks are counted.
pub record BusCenter : Type 0 where
  pub ledger : NetLedger
  pub callbacks : ℕ
  pub local_dev_info : Option LocalDeviceInfo
  pub auth_callbacks : List AuthCallback
  pub started : Bool

pub data BusError : Type 0 where
  already_started not_started node_not_found : BusError

-- An event for all the builder's callbacks, and the calls of the others.
pub data BusCall : Type 0 where
  event_triggered : ℕ → LnnEvent → NodeInfo → BusCall
  auth_success : ℕ → ℤ → NodeInfo → BusCall
  auth_failed : ℕ → ℤ → BusCall
  join_result : ℕ → Bytes → ℤ → BusCall
  leave_result : Bytes → BusCall

abbrev pub new_bus_center : BusCenter
new_bus_center = record {
  ledger = [];
  callbacks = 0;
  local_dev_info = none;
  auth_callbacks = [];
  started = false;
}

unfoldable pub start : BusCenter → BusCenter × Option BusError
start b = if b.started then (b, some already_started) else (record b { started = true }, none)

unfoldable pub stop : BusCenter → BusCenter × Option BusError
stop b = if b.started then (record b { started = false }, none) else (b, some not_started)

unfoldable pub register_event_callback : BusCenter → BusCenter
register_event_callback b = record b { callbacks = suc b.callbacks }

-- NotifyNodeOnline
unfoldable pub on_device_online : BusCenter → NodeInfo → ℕ → BusCenter × List BusCall
on_device_online b node now =
    let node' = record node { status = online; join_time = now; last_seen = now } in
    (
      record b { ledger = add_node b.ledger node' },
      event_triggered b.callbacks node_online node' ∷ [],
    )

-- NotifyNodeOffline
unfoldable pub on_device_offline :
    BusCenter → Bytes → ℕ → BusCenter × List BusCall × Option BusError
on_device_offline b network_id now = elim (get_node b.ledger network_id) [
  | none ↦ (b, [], some node_not_found)
  | some node ↦ (
    record b { ledger = update_node_status b.ledger network_id offline now },
    event_triggered b.callbacks node_offline (with_status node offline now) ∷ [],
    none,
  )
]

unfoldable pub set_local_device_info : BusCenter → Option LocalDeviceInfo → BusCenter
set_local_device_info b info = record b { local_dev_info = info }

unfoldable pub update_auth_port : BusCenter → ℤ → BusCenter
update_auth_port b port = elim b.local_dev_info [
  | none ↦ b
  | some info ↦ record b { local_dev_info = some (record info { auth_port = port }) }
]

unfoldable pub register_auth_callback : BusCenter → AuthCallback → BusCenter
register_auth_callback b callback = record b { auth_callbacks = b.auth_callbacks ++ callback ∷ [] }

unfoldable pub success_calls : ℕ → ℤ → NodeInfo → AuthCallback → List BusCall
success_calls request_id auth_id node (given success failed) =
    if success then auth_success request_id auth_id node ∷ [] else []
success_calls request_id auth_id node (of_join own has_callback) =
    if request_id == own
    then if has_callback then join_result own node.network_id (pos 0) ∷ [] else []
    else []

unfoldable pub failure_calls : ℕ → ℤ → AuthCallback → List BusCall
failure_calls request_id reason (given success failed) =
    if failed then auth_failed request_id reason ∷ [] else []
failure_calls request_id reason (of_join own has_callback) =
    if request_id == own then if has_callback then join_result own [] reason ∷ [] else [] else []

unfoldable pub each_callback : (AuthCallback → List BusCall) → List AuthCallback → List BusCall
each_callback calls [] = []
each_callback calls (c ∷ cs) = calls c ++ each_callback calls cs

unfoldable pub notify_auth_success : BusCenter → ℕ → ℤ → NodeInfo → ℕ → BusCenter × List BusCall
notify_auth_success b request_id auth_id node now =
    let (b', calls) = on_device_online b node now in
    let node' = record node { status = online; join_time = now; last_seen = now } in
    (b', calls ++ each_callback (success_calls request_id auth_id node') b'.auth_callbacks)

unfoldable pub notify_auth_failed : BusCenter → ℕ → ℤ → List BusCall
notify_auth_failed b request_id reason =
    each_callback (failure_calls request_id reason) b.auth_callbacks

-- `seconds` is the clock in seconds, by which the request is numbered.
abbrev pub registered_join : BusCenter → ℕ → Bool → BusCenter
registered_join b seconds has_callback =
    register_auth_callback b (of_join (seconds % 2 ^ 32) has_callback)

abbrev pub wifi_address : String → ℤ → AuthConnInfo
wifi_address ip port = record {
  link_type = auth_link_type_wifi;
  ip = ip;
  port = port;
  udid = "";
  peer_uid = "";
}

unfoldable pub join_lnn :
    GroupAuthAnswers
    → BusCenter
    → AuthWorld
    → String
    → ℤ
    → Bool
    → ℕ
    → ℕ
    → Option ℤ
    → ℕ
    → BusCenter × (AuthWorld × List ManagerCall × Option ManagerError)
join_lnn a b w ip port has_callback seconds now answer later = (
  registered_join b seconds has_callback,
  auth_device_open_conn a w (some (wifi_address ip port)) (seconds % 2 ^ 32) none now answer later,
)

unfoldable pub leave_lnn : BusCenter → Bytes → Bool → ℕ → BusCenter × List BusCall × Option BusError
leave_lnn b network_id has_callback now =
    let (b', calls, e) = on_device_offline b network_id now in
    elim e [
      | some x ↦ (b', calls, some x)
      | none ↦ (b', calls ++ (if has_callback then leave_result network_id ∷ [] else []), none)
    ]
