-- ===== src/Conn.antt =====
-- pkg/authentication/auth_connection.go: the manager of authentication connections between the socket
-- layer and its listener. The global manager is `none` before AuthConnInit and after AuthConnDeinit.
-- The answers of the socket layer, the clock and the listener's callbacks that are set are arguments;
-- what is called is in the events. A handler's `none` is the panic of a nil connection.
pub mod Agreement
pub mod Reachable
pub mod Requests
pub mod Lifecycle
pub mod Runs
use mathlib.Core.Option
use dsoftbus_go.Base.{
  ℕ, ◌==◌, nat_eq, if◌then◌else◌, ltb, Bool, true, false, List, [], ◌∷◌, ◌++◌, map, Option, none,
  some, Result, ok, err,
}
use dsoftbus_go.Base.Int.{ℤ, pos, negsuc, uint32, int32, int_eq}
use dsoftbus_go.Base.Table.{Table, lookup, insert, delete}
use dsoftbus_go.Types.{AuthConnInfo, AuthDataHead, auth_link_type_wifi, gen_conn_id}

pub record AuthConnection : Type 0 where
  pub conn_id : ℕ
  pub fd : ℤ
  pub conn_info : AuthConnInfo
  pub is_server : Bool
  pub create_time : ℕ

pub record ConnectRequest : Type 0 where
  pub request_id : ℕ
  pub conn_info : AuthConnInfo
  pub start_time : ℕ

-- Which callbacks of the listener are set.
pub record AuthConnListener : Type 0 where
  pub on_connect_result : Bool
  pub on_disconnected : Bool
  pub on_data_received : Bool

pub record AuthConnectionManager : Type 0 where
  pub listener : AuthConnListener
  pub connections : Table ℕ AuthConnection
  pub fd_to_conn_id : Table ℤ ℕ
  pub requests : Table ℕ ConnectRequest

pub data ConnError : Type 0 where
  listener_nil no_manager conn_info_nil not_found connect_failed : ConnError

pub data ConnEvent : Type 0 where
  connect_result : ℕ → ℕ → ℤ → AuthConnInfo → ConnEvent
  disconnected : ℕ → AuthConnInfo → ConnEvent
  data_received : ℕ → AuthConnInfo → Bool → AuthDataHead → List ℕ → ConnEvent
  socket_disconnect_device : ℤ → ConnEvent
  socket_post_bytes : ℤ → AuthDataHead → List ℕ → ConnEvent

unfoldable pub auth_conn_init : Option AuthConnListener → Result ConnError AuthConnectionManager
auth_conn_init none = err listener_nil
auth_conn_init (some l) =
    ok (record { listener = l; connections = []; fd_to_conn_id = []; requests = [] })

unfoldable pub report_result : AuthConnectionManager → ℕ → ℕ → ℤ → AuthConnInfo → List ConnEvent
report_result m request_id conn_id result info =
    if m.listener.on_connect_result then connect_result request_id conn_id result info ∷ [] else []

-- The loop over the requests: `found` is the match so far.
unfoldable pub earliest_from :
    Option (ℕ × ConnectRequest) → Table ℕ ConnectRequest → Option (ℕ × ConnectRequest)
earliest_from found [] = found
earliest_from none ((id, req) ∷ t) = earliest_from (some (id, req)) t
earliest_from (some (id', req')) ((id, req) ∷ t) =
    earliest_from (if ltb req.start_time req'.start_time then some (id, req) else some (id', req'))
      t

abbrev pub add_connection : AuthConnectionManager → AuthConnection → AuthConnectionManager
add_connection m conn = record m {
  connections = insert conn.conn_id conn m.connections;
  fd_to_conn_id = insert conn.fd conn.conn_id m.fd_to_conn_id;
}

abbrev pub new_connection : ℤ → ℤ → AuthConnInfo → Bool → ℕ → AuthConnection
new_connection link fd info is_server now = record {
  conn_id = gen_conn_id link (int32 (uint32 fd));
  fd = fd;
  conn_info = info;
  is_server = is_server;
  create_time = now;
}

abbrev pub establish :
    AuthConnectionManager → ℤ → ℕ → ℕ × ConnectRequest → AuthConnectionManager × List ConnEvent
establish m fd now (request_id, req) =
    let conn = new_connection req.conn_info.link_type fd req.conn_info false now in
    let m' = add_connection m conn in
    (
      record m' { requests = delete request_id m.requests },
      report_result m request_id conn.conn_id (pos 0) req.conn_info,
    )

unfoldable pub client_connected :
    AuthConnectionManager → ℤ → ℕ → AuthConnectionManager × List ConnEvent
client_connected m fd now = elim (earliest_from none m.requests) [
  | none ↦ (m, [])
  | some matched ↦ establish m fd now matched
]

-- `answer` is what SocketGetConnInfo gave: `none` for an error.
unfoldable pub server_connected :
    AuthConnectionManager → ℤ → Option AuthConnInfo → ℕ → AuthConnectionManager
server_connected m fd none now = m
server_connected m fd (some info) now =
    add_connection m (new_connection auth_link_type_wifi fd info true now)

unfoldable pub on_auth_socket_connected :
    Option AuthConnectionManager
    → ℤ
    → Bool
    → Option AuthConnInfo
    → ℕ
    → Option AuthConnectionManager × List ConnEvent
on_auth_socket_connected none fd is_client answer now = (none, [])
on_auth_socket_connected (some m) fd true answer now =
    let (m', events) = client_connected m fd now in (some m', events)
on_auth_socket_connected (some m) fd false answer now =
    (some (server_connected m fd answer now), [])

abbrev pub with_request : AuthConnectionManager → ℕ → AuthConnInfo → ℕ → AuthConnectionManager
with_request m request_id info now = record m {
  requests =
      insert request_id (record { request_id = request_id; conn_info = info; start_time = now })
        m.requests;
}

abbrev pub without_request : AuthConnectionManager → ℕ → AuthConnectionManager
without_request m request_id = record m { requests = delete request_id m.requests }

-- `answer` is the descriptor that SocketConnectDevice connected: `none` for an error. The callback of
-- a connected client runs inside the call.
unfoldable pub connect_auth_device :
    Option AuthConnectionManager
    → ℕ
    → Option AuthConnInfo
    → ℕ
    → Option ℤ
    → ℕ
    → Option AuthConnectionManager × List ConnEvent × Result ConnError (Unit {0})
connect_auth_device none request_id info now answer later = (none, [], err no_manager)
connect_auth_device (some m) request_id none now answer later = (some m, [], err conn_info_nil)
connect_auth_device (some m) request_id (some info) now none later = (
  some (without_request (with_request m request_id info now) request_id),
  report_result m request_id 0 (negsuc 0) info,
  err connect_failed,
)
connect_auth_device (some m) request_id (some info) now (some fd) later =
    let (s, events) =
      on_auth_socket_connected (some (with_request m request_id info now)) fd true none later in
    (s, events, ok tt)

abbrev pub drop_connection : AuthConnectionManager → ℕ → ℤ → AuthConnectionManager
drop_connection m conn_id fd = record m {
  connections = delete conn_id m.connections;
  fd_to_conn_id = delete fd m.fd_to_conn_id;
}

unfoldable pub disconnect_auth_device :
    Option AuthConnectionManager → ℕ → Option AuthConnectionManager × List ConnEvent
disconnect_auth_device none conn_id = (none, [])
disconnect_auth_device (some m) conn_id = elim (lookup conn_id m.connections) [
  | none ↦ (some m, [])
  | some conn ↦ (some (drop_connection m conn_id conn.fd), socket_disconnect_device conn.fd ∷ [])
]

-- The collected ids in turn, on the manager that is global no more.
unfoldable pub disconnect_all : AuthConnectionManager → List ℕ → List ConnEvent
disconnect_all m [] = []
disconnect_all m (conn_id ∷ ids) = elim (lookup conn_id m.connections) [
  | none ↦ disconnect_all m ids
  | some conn ↦
      socket_disconnect_device conn.fd ∷ disconnect_all (drop_connection m conn_id conn.fd) ids
]

unfoldable pub auth_conn_deinit :
    Option AuthConnectionManager → Option AuthConnectionManager × List ConnEvent
auth_conn_deinit none = (none, [])
auth_conn_deinit (some m) =
    (none, disconnect_all m (map (λ (e : ℕ × AuthConnection). e.0) m.connections))

unfoldable pub get_auth_connection_by_conn_id :
    Option AuthConnectionManager → ℕ → Result ConnError AuthConnection
get_auth_connection_by_conn_id none conn_id = err no_manager
get_auth_connection_by_conn_id (some m) conn_id = elim (lookup conn_id m.connections) [
  | none ↦ err not_found
  | some conn ↦ ok conn
]

unfoldable pub get_conn_info : Option AuthConnectionManager → ℕ → Result ConnError AuthConnInfo
get_conn_info none conn_id = err no_manager
get_conn_info (some m) conn_id = elim (lookup conn_id m.connections) [
  | none ↦ err not_found
  | some conn ↦ ok conn.conn_info
]

-- The bytes go to SocketPostBytes, whose answer is returned.
unfoldable pub post_auth_data :
    Option AuthConnectionManager → ℕ → AuthDataHead → List ℕ → Result ConnError ConnEvent
post_auth_data none conn_id head payload = err no_manager
post_auth_data (some m) conn_id head payload = elim (lookup conn_id m.connections) [
  | none ↦ err not_found
  | some conn ↦ ok (socket_post_bytes conn.fd head payload)
]

-- The connection may be nil: `ok none`.
unfoldable pub get_auth_connection_by_fd :
    Option AuthConnectionManager → ℤ → Result ConnError (Option AuthConnection)
get_auth_connection_by_fd none fd = err no_manager
get_auth_connection_by_fd (some m) fd = elim (lookup fd m.fd_to_conn_id) [
  | none ↦ err not_found
  | some conn_id ↦ ok (lookup conn_id m.connections)
]

-- The connection's info is read only when there is a callback to give it to.
abbrev pub read_connection :
    Bool → Option AuthConnection → (AuthConnection → ConnEvent) → Option (List ConnEvent)
read_connection false conn event = some []
read_connection true conn event = Option.map (λ (x : AuthConnection). event x ∷ []) conn

unfoldable pub on_auth_socket_disconnected :
    Option AuthConnectionManager → ℤ → Option AuthConnectionManager × Option (List ConnEvent)
on_auth_socket_disconnected none fd = (none, some [])
on_auth_socket_disconnected (some m) fd = elim (lookup fd m.fd_to_conn_id) [
  | none ↦ (some m, some [])
  | some conn_id ↦ (
    some (drop_connection m conn_id fd),
    read_connection m.listener.on_disconnected (lookup conn_id m.connections)
        (λ (conn : AuthConnection). disconnected conn_id conn.conn_info),
  )
]

unfoldable pub on_auth_socket_data_received :
    Option AuthConnectionManager → ℤ → AuthDataHead → List ℕ → Option (List ConnEvent)
on_auth_socket_data_received none fd head payload = some []
on_auth_socket_data_received (some m) fd head payload = elim (lookup fd m.fd_to_conn_id) [
  | none ↦ some []
  | some conn_id ↦
      read_connection m.listener.on_data_received (lookup conn_id m.connections)
        (λ (conn : AuthConnection).
          data_received conn_id conn.conn_info conn.is_server head payload)
]
