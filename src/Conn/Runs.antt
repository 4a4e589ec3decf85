-- ===== src/Conn/Runs.antt =====
-- A concrete connection, and the theorems at concrete inputs.
use dsoftbus_go.Base.{ℕ, ◌≡◌, ◌≢◌, refl, arith, [], ◌∷◌, Option, none, some, ok, true, false}
use dsoftbus_go.Base.Int.{pos, uint32, int32}
use dsoftbus_go.Base.Table.{Table}
use dsoftbus_go.Types.{AuthConnInfo, AuthDataHead, gen_conn_id}
use dsoftbus_go.Conn.{
  AuthConnection, ConnectRequest, AuthConnListener, AuthConnectionManager, auth_conn_init,
  connect_auth_device, connect_result, get_auth_connection_by_fd, get_conn_info, post_auth_data,
  socket_post_bytes, data_received, on_auth_socket_connected, on_auth_socket_data_received,
  on_auth_socket_disconnected, with_request,
}
use dsoftbus_go.Conn.Agreement.{AllAgree}
use dsoftbus_go.Conn.Reachable.{
  init, socket_connected, Reachable, start, next, Reachable-AllAgree, never_nil,
}
use dsoftbus_go.Conn.Requests.{first_request_takes_connection}
use dsoftbus_go.Conn.Lifecycle.{connect_auth_device_lem}

abbrev all_set : AuthConnListener
all_set = record { on_connect_result = true; on_disconnected = true; on_data_received = true }

abbrev fresh_manager : AuthConnectionManager
fresh_manager = record { listener = all_set; connections = []; fd_to_conn_id = []; requests = [] }

abbrev peer_info : AuthConnInfo
peer_info = record {
  link_type = pos 1;
  ip = "10.0.0.2";
  port = pos 5000;
  udid = "a";
  peer_uid = "b";
}

abbrev other_info : AuthConnInfo
other_info = record {
  link_type = pos 1;
  ip = "10.0.0.3";
  port = pos 5000;
  udid = "c";
  peer_uid = "d";
}

abbrev auth_head : AuthDataHead
auth_head = record { data_type = 0xFFFF0001; module_id = pos 3; seq = pos 1; flag = pos 0; len = 1 }

-- The server accepted a connection with the descriptor 1000.
abbrev serving : Option AuthConnectionManager
serving = (on_auth_socket_connected (some fresh_manager) (pos 1000) false (some peer_info) 1).0

serving-Reachable : Reachable serving
unfolding auth_conn_init
serving-Reachable =
    next (next start (init none (some all_set) fresh_manager refl))
      (socket_connected (some fresh_manager) (pos 1000) false (some peer_info) 1 (omega arith))

Reachable-AllAgree_example : AllAgree serving
Reachable-AllAgree_example = Reachable-AllAgree serving-Reachable

never_nil_example :
    (on_auth_socket_data_received serving (pos 1000) auth_head (5 ∷ []) ≢ none)
    × ((on_auth_socket_disconnected serving (pos 1000)).1 ≢ none)
    × (get_auth_connection_by_fd serving (pos 1000) ≢ ok none)
never_nil_example = never_nil serving (pos 1000) auth_head (5 ∷ []) serving-Reachable

abbrev pending : Table ℕ ConnectRequest
pending =
    (1, record { request_id = 1; conn_info = peer_info; start_time = 20 })
    ∷ (2, record { request_id = 2; conn_info = other_info; start_time = 10 })
    ∷ []

first_request_takes_connection_example :
    (connect_auth_device
      (some (with_request fresh_manager 1 peer_info 10))
      2
      (some other_info)
      20
      (some (pos 2000))
      21).1
    ≡ connect_result 1 (gen_conn_id (pos 1) (int32 (uint32 (pos 2000)))) (pos 0) peer_info ∷ []
first_request_takes_connection_example =
    first_request_takes_connection fresh_manager 1 2 peer_info other_info 10 20 21 (pos 2000) refl
      refl (λ e. omega arith) (omega arith)

connect_auth_device_lem_example :
    let c = gen_conn_id (pos 1) (pos 2000) in
    let (s, events, r) =
      connect_auth_device (some fresh_manager) 1 (some peer_info) 10 (some (pos 2000)) 11 in
    (events ≡ connect_result 1 c (pos 0) peer_info ∷ [])
    × (r ≡ ok tt)
    × (get_conn_info s c ≡ ok peer_info)
    × (post_auth_data s c auth_head (5 ∷ []) ≡ ok (socket_post_bytes (pos 2000) auth_head (5 ∷ [])))
    × (on_auth_socket_data_received s (pos 2000) auth_head (5 ∷ [])
        ≡ some (data_received c peer_info false auth_head (5 ∷ []) ∷ []))
connect_auth_device_lem_example =
    connect_auth_device_lem fresh_manager 1 peer_info 10 11 (pos 2000) auth_head (5 ∷ [])
      (omega arith) refl refl refl

abbrev peer_connection : AuthConnection
peer_connection = record {
  conn_id = 0x1_0000_07d0;
  fd = pos 2000;
  conn_info = peer_info;
  is_server = false;
  create_time = 11;
}

abbrev connected_manager : AuthConnectionManager
connected_manager = record {
  listener = all_set;
  connections = (0x1_0000_07d0, peer_connection) ∷ [];
  fd_to_conn_id = (pos 2000, 0x1_0000_07d0) ∷ [];
  requests = [];
}
