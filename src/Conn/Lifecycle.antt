-- ===== src/Conn/Lifecycle.antt =====
-- One connection from ConnectAuthDevice to DisconnectAuthDevice.
use dsoftbus_go.Base.{
  ℕ, ◌≡◌, refl, arith, true, false, List, [], ◌∷◌, none, some, ok, err, nat_eq, nat_beq_iff,
}
use dsoftbus_go.Base.Int.{ℤ, pos, uint32, int32, IsInt32, int_eq, int_beq_iff, int32-uint32}
use dsoftbus_go.Base.Table.{lookup, insert, delete, lookup-insert, lookup-delete}
use dsoftbus_go.Types.{AuthConnInfo, AuthDataHead, gen_conn_id}
use dsoftbus_go.Conn.Requests.{connect_matched}
use dsoftbus_go.Conn.{
  AuthConnection, AuthConnectionManager, establish, earliest_from, connect_auth_device,
  disconnect_auth_device, connect_result, report_result, with_request, get_conn_info,
  post_auth_data, socket_post_bytes, data_received, on_auth_socket_data_received,
  socket_disconnect_device, not_found,
}

alone_pending :
    (m : AuthConnectionManager) (id : ℕ) (info : AuthConnInfo) (t : ℕ)
    → m.requests ≡ []
    → earliest_from none (with_request m id info t).requests
      ≡ some (id, record { request_id = id; conn_info = info; start_time = t })
unfolding earliest_from insert
alone_pending m id info t empty = rw empty refl

-- The manager after the only request was connected.
abbrev pub connected_alone :
    AuthConnectionManager → ℕ → AuthConnInfo → ℕ → ℤ → ℕ → AuthConnectionManager
connected_alone m id info t fd now =
    (establish (with_request m id info t) fd now
      (id, record { request_id = id; conn_info = info; start_time = t })).0

connect_alone :
    (m : AuthConnectionManager) (id : ℕ) (info : AuthConnInfo) (t now : ℕ) (fd : ℤ)
    → m.requests ≡ []
    → connect_auth_device (some m) id (some info) t (some fd) now ≡ (
      some (connected_alone m id info t fd now),
      report_result m id (gen_conn_id info.link_type (int32 (uint32 fd))) (pos 0) info,
      ok tt,
    )
unfolding report_result
connect_alone m id info t now fd empty =
    connect_matched m id info t now fd _ (alone_pending m id info t empty)

-- With no other request pending, a connection that ConnectAuthDevice makes is reported once, under its
-- request and the id made of the link type and the descriptor. Under this id the connection info is found,
-- data goes out over the descriptor, and what arrives on the descriptor is reported under the id, if the
-- listener has the callbacks.
pub connect_auth_device_lem :
    (m : AuthConnectionManager) (id : ℕ) (info : AuthConnInfo) (t now : ℕ) (fd : ℤ)
    (head : AuthDataHead) (payload : List ℕ)
    → IsInt32 fd
    → m.requests ≡ []
    → m.listener.on_connect_result ≡ true
    → m.listener.on_data_received ≡ true
    → let c = gen_conn_id info.link_type fd in
      let (s, events, r) = connect_auth_device (some m) id (some info) t (some fd) now in
      (events ≡ connect_result id c (pos 0) info ∷ [])
      × (r ≡ ok tt)
      × (get_conn_info s c ≡ ok info)
      × (post_auth_data s c head payload ≡ ok (socket_post_bytes fd head payload))
      × (on_auth_socket_data_received s fd head payload
          ≡ some (data_received c info false head payload ∷ []))
unfolding get_conn_info post_auth_data on_auth_socket_data_received report_result
connect_auth_device_lem m id info t now fd head payload fits empty tells hears =
    rw (connect_alone m id info t now fd empty) (
      rw (int32-uint32 fd fits, tells) refl,
      refl,
      rw (int32-uint32 fd fits) (rw (get_conn_info, found) refl),
      rw (int32-uint32 fd fits) (rw (post_auth_data, found) refl),
      rw (int32-uint32 fd fits) (rw (on_auth_socket_data_received, by_fd) (rw (found, hears) refl)),
    )
  where
    c : ℕ
    c = gen_conn_id info.link_type fd

    conn : AuthConnection
    conn = record { conn_id = c; fd = fd; conn_info = info; is_server = false; create_time = now }

    found : lookup c (insert c conn m.connections) ≡ some conn
    found = ground (arith, lookup-insert c c conn m.connections, nat_beq_iff c c)

    by_fd : lookup fd (insert fd c m.fd_to_conn_id) ≡ some c
    by_fd = ground (arith, lookup-insert fd fd c m.fd_to_conn_id, int_beq_iff fd fd)

-- DisconnectAuthDevice of a connection that is there closes its descriptor. Afterwards the id is unknown to
-- GetConnInfo and PostAuthData, and what still arrives on the descriptor is dropped.
pub disconnect_auth_device_lem :
    (m : AuthConnectionManager) (c : ℕ) (conn : AuthConnection) (head : AuthDataHead)
    (payload : List ℕ)
    → lookup c m.connections ≡ some conn
    → let (s, events) = disconnect_auth_device (some m) c in
      (events ≡ socket_disconnect_device conn.fd ∷ [])
      × (get_conn_info s c ≡ err not_found)
      × (post_auth_data s c head payload ≡ err not_found)
      × (on_auth_socket_data_received s conn.fd head payload ≡ some [])
unfolding disconnect_auth_device get_conn_info post_auth_data on_auth_socket_data_received
disconnect_auth_device_lem m c conn head payload e =
    rw (e, disconnect_auth_device)
      (
        refl,
        rw (get_conn_info, gone) refl,
        rw (post_auth_data, gone) refl,
        rw (on_auth_socket_data_received, no_fd) refl,
      )
  where
    gone : lookup c (delete c m.connections) ≡ none
    gone = ground (arith, lookup-delete c c m.connections, nat_beq_iff c c)

    no_fd : lookup conn.fd (delete conn.fd m.fd_to_conn_id) ≡ none
    no_fd =
        ground (arith, lookup-delete conn.fd conn.fd m.fd_to_conn_id, int_beq_iff conn.fd conn.fd)
