-- ===== src/Conn/Reachable.antt =====
-- The states that auth_connection.go reaches: the tables agree, so no handler meets a nil connection.
use dsoftbus_go.Base.{
  ℕ, ◌≡◌, ◌≢◌, refl, subst, nat_eq, Bool, true, false, List, [], Option, none, some, Option-cases,
  inl, inr, Result, ok,
}
use dsoftbus_go.Base.Int.{ℤ, IsInt32, int_eq}
use dsoftbus_go.Base.Table.{lookup}
use dsoftbus_go.Types.{AuthConnInfo, AuthDataHead, auth_link_type_wifi}
use dsoftbus_go.Conn.{
  AuthConnection, AuthConnListener, AuthConnectionManager, ConnError, ConnEvent, new_connection,
  auth_conn_init, auth_conn_deinit, server_connected, on_auth_socket_connected, with_request,
  without_request, disconnect_auth_device, get_auth_connection_by_fd, read_connection,
  on_auth_socket_disconnected, on_auth_socket_data_received,
}
use dsoftbus_go.Conn.Agreement.{
  Owns, Agrees, AllAgree, added-Agrees, dropped-Agrees, new_connection-get_fd,
  client_connected-Agrees,
}

-- The operations of the global manager, from one state to the next. ConnectAuthDevice stores its request,
-- then other operations run while it dials, and it drops the request when the dial fails.
pub data ConnStep : Option AuthConnectionManager → Option AuthConnectionManager → Type 0 where
  init :
      (s : Option AuthConnectionManager) (l : Option AuthConnListener) (m : AuthConnectionManager)
      → auth_conn_init l ≡ ok m
      → ConnStep s (some m)
  deinit : (s : Option AuthConnectionManager) → ConnStep s (auth_conn_deinit s).0
  request_stored :
      (m : AuthConnectionManager) (id : ℕ) (info : AuthConnInfo) (now : ℕ)
      → ConnStep (some m) (some (with_request m id info now))
  request_dropped :
      (m : AuthConnectionManager) (id : ℕ) → ConnStep (some m) (some (without_request m id))
  disconnect :
      (s : Option AuthConnectionManager) (c : ℕ) → ConnStep s (disconnect_auth_device s c).0
  socket_connected :
      (s : Option AuthConnectionManager) (fd : ℤ) (is_client : Bool) (answer : Option AuthConnInfo)
      (now : ℕ)
      → IsInt32 fd
      → ConnStep s (on_auth_socket_connected s fd is_client answer now).0
  socket_disconnected :
      (s : Option AuthConnectionManager) (fd : ℤ) → ConnStep s (on_auth_socket_disconnected s fd).0

-- The states of the program: it starts without a manager.
pub data Reachable : Option AuthConnectionManager → Type 0 where
  start : Reachable none
  next : {s s' : Option AuthConnectionManager} → Reachable s → ConnStep s s' → Reachable s'

server_connected-Agrees :
    (m : AuthConnectionManager) (fd : ℤ) (answer : Option AuthConnInfo) (now : ℕ)
    → IsInt32 fd
    → Agrees m
    → Agrees (server_connected m fd answer now)
unfolding server_connected
server_connected-Agrees m fd none now h v = v
server_connected-Agrees m fd (some info) now h v =
    added-Agrees m (new_connection auth_link_type_wifi fd info true now)
      (new_connection-get_fd auth_link_type_wifi fd info true now h) v

connected-AllAgree :
    (s : Option AuthConnectionManager) (fd : ℤ) (is_client : Bool) (answer : Option AuthConnInfo)
    (now : ℕ)
    → IsInt32 fd
    → AllAgree s
    → AllAgree (on_auth_socket_connected s fd is_client answer now).0
unfolding on_auth_socket_connected
connected-AllAgree none fd is_client answer now h v = tt
connected-AllAgree (some m) fd true answer now h v = client_connected-Agrees m fd now h v
connected-AllAgree (some m) fd false answer now h v = server_connected-Agrees m fd answer now h v

disconnect-AllAgree :
    (s : Option AuthConnectionManager) (c : ℕ)
    → AllAgree s
    → AllAgree (disconnect_auth_device s c).0
unfolding disconnect_auth_device
disconnect-AllAgree none c v = tt
disconnect-AllAgree (some m) c v = elim (Option-cases (lookup c m.connections)) [
  | inl e ↦ rw (e, disconnect_auth_device) v
  | inr (conn, e) ↦ rw (e, disconnect_auth_device) (dropped-Agrees m c conn.fd conn e refl v)
]

found_connection :
    (fd : ℤ) (c : ℕ) (o : Option AuthConnection)
    → Owns fd c o
    → (conn : AuthConnection) × (o ≡ some conn) × (conn.fd ≡ fd)
found_connection fd c none h = absurd h
found_connection fd c (some conn) h = (conn, refl, h.0)

disconnected-AllAgree :
    (s : Option AuthConnectionManager) (fd : ℤ)
    → AllAgree s
    → AllAgree (on_auth_socket_disconnected s fd).0
unfolding on_auth_socket_disconnected
disconnected-AllAgree none fd v = tt
disconnected-AllAgree (some m) fd v = elim (Option-cases (lookup fd m.fd_to_conn_id)) [
  | inl e ↦ rw (e, on_auth_socket_disconnected) v
  | inr (c, e) ↦
      let (conn, found, at) = found_connection fd c (lookup c m.connections) (rw e at (v fd)) in
      rw (e, on_auth_socket_disconnected) (dropped-Agrees m c fd conn found at v)
]

ok-injective :
    {m m' : AuthConnectionManager}
    → ◌≡◌ {A = Result ConnError AuthConnectionManager} (ok m) (ok m')
    → m ≡ m'
ok-injective e = cc

fresh-Agrees :
    (l : AuthConnListener)
    → Agrees (record { listener = l; connections = []; fd_to_conn_id = []; requests = [] })
unfolding lookup
fresh-Agrees l fd = tt

ConnStep-AllAgree : {s s' : Option AuthConnectionManager} → ConnStep s s' → AllAgree s → AllAgree s'
unfolding auth_conn_init auth_conn_deinit
ConnStep-AllAgree (init s none m e) v = absurd (cc e)
ConnStep-AllAgree (init s (some l) m e) v = subst Agrees (ok-injective e) (fresh-Agrees l)
ConnStep-AllAgree (deinit none) v = tt
ConnStep-AllAgree (deinit (some m)) v = tt
ConnStep-AllAgree (request_stored m id info now) v = v
ConnStep-AllAgree (request_dropped m id) v = v
ConnStep-AllAgree (disconnect s c) v = disconnect-AllAgree s c v
ConnStep-AllAgree (socket_connected s fd is_client answer now h) v =
    connected-AllAgree s fd is_client answer now h v
ConnStep-AllAgree (socket_disconnected s fd) v = disconnected-AllAgree s fd v

-- Let every descriptor of a connected socket fit an int32. In every reachable state of the global manager,
-- the id that is stored for a descriptor is the id of a
-- stored connection, this connection has the descriptor, and the descriptor is the low half of the id.
pub Reachable-AllAgree : {s : Option AuthConnectionManager} → Reachable s → AllAgree s
Reachable-AllAgree start = tt
Reachable-AllAgree (next r step) = ConnStep-AllAgree step (Reachable-AllAgree r)

-- The connection behind a stored id.
stored_connection :
    (m : AuthConnectionManager) (fd : ℤ) (c : ℕ)
    → Agrees m
    → lookup fd m.fd_to_conn_id ≡ some c
    → (conn : AuthConnection) × (lookup c m.connections ≡ some conn) × (conn.fd ≡ fd)
stored_connection m fd c v e = found_connection fd c (lookup c m.connections) (rw e at (v fd))

read_some :
    (b : Bool) (conn : AuthConnection) (f : AuthConnection → ConnEvent)
    → read_connection b (some conn) f ≢ none
read_some true conn f e = absurd (cc e)
read_some false conn f e = absurd (cc e)

-- Let every descriptor of a connected socket fit an int32. In every reachable state no handler meets a nil connection: a receive and a disconnect of any descriptor
-- go through, and the connection that GetAuthConnectionByFd returns without an error is not nil.
pub never_nil :
    (s : Option AuthConnectionManager) (fd : ℤ) (head : AuthDataHead) (payload : List ℕ)
    → Reachable s
    → (on_auth_socket_data_received s fd head payload ≢ none)
      × ((on_auth_socket_disconnected s fd).1 ≢ none)
      × (get_auth_connection_by_fd s fd ≢ ok none)
unfolding on_auth_socket_data_received on_auth_socket_disconnected get_auth_connection_by_fd
never_nil none fd head payload r = (λ e. absurd (cc e), λ e. absurd (cc e), λ e. absurd (cc e))
never_nil (some m) fd head payload r = elim (Option-cases (lookup fd m.fd_to_conn_id)) [
  | inl e ↦
      rw (e, on_auth_socket_data_received, on_auth_socket_disconnected, get_auth_connection_by_fd)
        (λ x. absurd (cc x), λ x. absurd (cc x), λ x. absurd (cc x))
  | inr (c, e) ↦
      let (conn, found, at) = stored_connection m fd c (Reachable-AllAgree r) e in
      rw (e, on_auth_socket_data_received, on_auth_socket_disconnected, get_auth_connection_by_fd)
        (rw found (
          read_some m.listener.on_data_received conn _,
          read_some m.listener.on_disconnected conn _,
          λ x. absurd (cc x),
        ))
]
