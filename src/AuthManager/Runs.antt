-- ===== src/AuthManager/Runs.antt =====
-- Runs of the service of auth_manager.go.
use dsoftbus_go.Base.{
  ℕ, nat_eq, ◌≡◌, ◌≢◌, refl, arith, ◌==◌, if◌then◌else◌, Bool, true, false, List, [], ◌∷◌, length,
  none, some, ok, err,
}
use dsoftbus_go.Base.Int.{ℤ, pos, negsuc, int_eq, uint64, int64, ◌+ℤ◌}
use dsoftbus_go.Base.Text.{Bytes}
use dsoftbus_go.Base.Table.{lookup, insert}
use dsoftbus_go.Types.{AuthConnInfo, AuthDataHead}
use dsoftbus_go.Receive.{on_tcp_data_received}
use dsoftbus_go.Receive.Streams.{frame_bytes}
use dsoftbus_go.Fds.{
  ConnectionManager, new_connection_manager, register_conn, allocate_fd, client, get_conn,
}
use dsoftbus_go.Post
use dsoftbus_go.Conn.{AuthConnectionManager, auth_conn_init, socket_post_bytes, connect_failed}
use dsoftbus_go.AuthSession.{GroupAuthAnswers, new_auth_session_manager, auth_session_init}
use dsoftbus_go.AuthManager.{
  AuthManager, AuthConnCallback, AuthWorld, new_auth_manager_service, connection_failed,
  find_by_request_id, not_found, on_conn_open_failed,
}
use dsoftbus_go.AuthManager.Events.{on_auth_data_received}
use dsoftbus_go.AuthManager.Service.{
  auth_device_init, deinit_internal, init_layers, auth_device_open_conn, auth_device_close_conn,
}
use dsoftbus_go.AuthManager.ById.{auth_device_post_trans_data}
use dsoftbus_go.AuthManager.Getters.{get_auth_manager_by_conn_id, auth_device_get_device_uuid}
use dsoftbus_go.AuthManager.Steps.{AuthStep, AuthRun}
use dsoftbus_go.AuthManager.Reachable.{device_uuid_never_known}
use dsoftbus_go.AuthManager.Routing.{IsReady, first_packet_needs_own_sequence}
use dsoftbus_go.AuthManager.Closing.{closed_everywhere, connection_of}
use dsoftbus_go.AuthManager.Sending.{sent_head, IsTransData, trans_delivery, trans_data_is_received}
use dsoftbus_go.AuthManager.Opening.{refused_connection_leaves_nothing}

abbrev pub accepting : GroupAuthAnswers
accepting = record {
  local_udid = some (117 ∷ []);
  has_instance = true;
  auth_device_ok = true;
  process_data_ok = true;
}

accepting-IsReady : IsReady accepting
accepting-IsReady = record {
  udid = 117 ∷ [];
  has_udid = refl;
  instance_there = refl;
  device_ok = refl;
  process_ok = refl;
}

abbrev peer : AuthConnInfo
peer = record { link_type = pos 1; ip = "10.0.0.2"; port = pos 7000; udid = ""; peer_uid = "" }

abbrev all_callbacks : AuthConnCallback
all_callbacks = record { opened = true; open_failed = true; received = true }

abbrev empty_world : AuthWorld
empty_world = record {
  service = new_auth_manager_service;
  sessions = record { manager = new_auth_session_manager; contexts = [] };
  connections = none;
}

abbrev fresh_connections : AuthConnectionManager
fresh_connections = record {
  listener = record { on_connect_result = true; on_disconnected = true; on_data_received = true };
  connections = [];
  fd_to_conn_id = [];
  requests = [];
}

-- After AuthDeviceInit.
abbrev pub ready_world : AuthWorld
ready_world = record {
  service = record new_auth_manager_service { callback = some all_callbacks; initialized = true };
  sessions = record {
    manager = record new_auth_session_manager { initialized = true };
    contexts = [];
  };
  connections = some fresh_connections;
}

initialised_service :
    auth_device_init true (some all_callbacks) empty_world ≡ (ready_world, [], none)
unfolding auth_device_init deinit_internal init_layers auth_conn_init auth_session_init
initialised_service = refl

-- A manager and its connection on descriptor 2000.
abbrev open_manager : AuthManager
open_manager = record {
  auth_id = pos 1001;
  auth_seq = pos 1001;
  conn_id = 77;
  conn_info = some peer;
  is_server = false;
  has_auth_passed = true;
  last_active_time = 3;
  device_info = none;
  request_id = 5;
}

abbrev open_connections : AuthConnectionManager
open_connections = record fresh_connections {
  connections =
      (
        77,
        record {
          conn_id = 77;
          fd = pos 2000;
          conn_info = peer;
          is_server = false;
          create_time = 3;
        },
      )
      ∷ [];
  fd_to_conn_id = (pos 2000, 77) ∷ [];
}

abbrev open_world : AuthWorld
open_world = record ready_world {
  service = record ready_world.service {
    managers = (pos 1001, open_manager) ∷ [];
    conn_id_to_auth_id = (77, pos 1001) ∷ [];
    auth_id_counter = pos 1001;
    seq_counter = pos 1001;
  };
  connections = some open_connections;
}

abbrev sdk_head : ℤ → AuthDataHead
sdk_head seq = record { data_type = 0; module_id = pos 3; seq = seq; flag = pos 0; len = 1 }

-- The peer's second connection ever, our first: its packet is lost.
first_packet_needs_own_sequence_example :
    (on_auth_data_received accepting ready_world 9 peer true (sdk_head (pos 1002)) (8 ∷ []) 4).1
    ≡ []
unfolding lookup ◌+ℤ◌ int64 uint64
first_packet_needs_own_sequence_example =
    first_packet_needs_own_sequence accepting ready_world 9 peer (sdk_head (pos 1002)) (8 ∷ []) 4
      accepting-IsReady refl refl refl refl refl

closed_everywhere_example :
    let w' = (auth_device_close_conn open_world (pos 1001)).0 in
    ((id : ℤ)
      → lookup id w'.service.managers
        ≡ (if pos 1001 == id then none else lookup id open_world.service.managers))
    × (get_auth_manager_by_conn_id w'.service 77 ≡ err not_found)
    × (connection_of w'.connections 77 ≡ none)
    × ((module_id flag : ℤ) (payload : List ℕ) (now : ℕ)
        → auth_device_post_trans_data w' (pos 1001) module_id flag payload now
          ≡ (w', err not_found))
unfolding lookup
closed_everywhere_example = closed_everywhere open_world (pos 1001) open_manager refl refl

abbrev all_are_tcp : ℕ → Bool
all_are_tcp conn = true

abbrev one_socket : ConnectionManager ℕ
one_socket = (register_conn new_connection_manager 7 client).0

hi-IsTransData : IsTransData open_manager (pos 9) (pos 0) (104 ∷ 105 ∷ [])
hi-IsTransData = record {
  module_fits = omega arith;
  seq_fits = omega arith;
  flag_fits = omega arith;
  not_empty = omega arith;
  not_long = omega arith;
}

trans_data_is_received_example :
    let d = trans_delivery open_manager (pos 9) (pos 0) (104 ∷ 105 ∷ []) in
    let bytes = frame_bytes d in
    ((auth_device_post_trans_data open_world (pos 1001) (pos 9) (pos 0) (104 ∷ 105 ∷ []) 6).1
      ≡ ok (
          socket_post_bytes
            (pos 2000)
            (sent_head open_manager (pos 9) (pos 0) (104 ∷ 105 ∷ []))
            (104 ∷ 105 ∷ [])))
    × (Post.socket_post_bytes all_are_tcp
          (some one_socket)
          (pos 2000)
          (some (sent_head open_manager (pos 9) (pos 0) (104 ∷ 105 ∷ [])))
          (some (104 ∷ 105 ∷ []))
        ≡ ok (7, bytes))
    × (on_tcp_data_received bytes (length bytes) ≡ some (pos (length bytes), d ∷ []))
unfolding lookup get_conn register_conn allocate_fd insert uint64
trans_data_is_received_example =
    trans_data_is_received all_are_tcp one_socket 7 open_world open_connections (pos 1001)
      open_manager
      (record { conn_id = 77; fd = pos 2000; conn_info = peer; is_server = false; create_time = 3 })
      (pos 9) (pos 0) (104 ∷ 105 ∷ []) 6 refl refl refl refl refl refl hi-IsTransData

-- A callback for failures alone, given with the call.
abbrev own_callback : AuthConnCallback
own_callback = record { opened = false; open_failed = true; received = false }

refused_connection_leaves_nothing_example :
    let o =
      auth_device_open_conn accepting ready_world (some peer) 5 (some own_callback) 3 none 4 in
    (o.2 ≡ some (connection_failed connect_failed))
    × (o.1 ≡ on_conn_open_failed 5 (negsuc 0) ∷ [])
    × (o.0.service.callback ≡ some own_callback)
    × (o.0.sessions ≡ ready_world.sessions)
    × (o.0.service.conn_id_to_auth_id ≡ [])
    × ((id : ℤ) → lookup id o.0.service.managers ≡ (if pos 1001 == id then none else none))
unfolding lookup find_by_request_id ◌+ℤ◌ int64 uint64
refused_connection_leaves_nothing_example =
    refused_connection_leaves_nothing accepting peer 5 3 4 ready_world (some own_callback)
      fresh_connections refl refl refl refl

-- A connection that is established: the manager and its session.
opened_run :
    AuthRun empty_world
      (auth_device_open_conn accepting ready_world (some peer) 5 none 3 (some (pos 2000)) 4).0
unfolding auth_device_init deinit_internal init_layers auth_conn_init auth_session_init
opened_run =
    AuthRun.then_step
      (AuthRun.then_step (AuthRun.here empty_world)
        (AuthStep.initialised true (some all_callbacks) empty_world))
      (AuthStep.opened accepting ready_world (some peer) 5 none 3 (some (pos 2000)) 4)

device_uuid_never_known_example :
    let w' =
      (auth_device_open_conn accepting ready_world (some peer) 5 none 3 (some (pos 2000)) 4).0 in
    ((m : AuthManager) → lookup (pos 1001) w'.service.managers ≡ some m → m.auth_id ≡ pos 1001)
    × ((uuid : Bytes) → auth_device_get_device_uuid w'.service (pos 1001) ≢ ok uuid)
device_uuid_never_known_example = device_uuid_never_known refl opened_run (pos 1001)
