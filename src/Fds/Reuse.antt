-- ===== src/Fds/Reuse.antt =====
-- manager.go: the server's descriptors reach the clients' after a thousand connections.
use dsoftbus_go.Base.{
  ℕ, ◌+◌, ◌%◌, ◌^◌, ◌≡◌, ◌≤◌, ◌<◌, refl, ◌∙◌, arith, nat_eq, nat_beq_iff, List, [], ◌∷◌, length,
  some,
}
use dsoftbus_go.Base.Table.{lookup-insert}
use dsoftbus_go.Fds.{
  server, client, ConnectionManager, new_connection_manager, allocate_fd, register_conn, get_conn,
}

module _ {C : Type 0} where
  -- The server accepts the connections one after the other.
  abbrev pub accept_all : ConnectionManager C → List C → ConnectionManager C
  accept_all m [] = m
  accept_all m (c ∷ cs) = accept_all (register_conn m c server).0 cs

  accepted :
      (m : ConnectionManager C) (fd : ℕ) (cs : List C)
      → m.server_next_fd + length cs ≤ fd
      → fd < 2 ^ 64
      → ((accept_all m cs).server_next_fd ≡ m.server_next_fd + length cs)
        × (get_conn (accept_all m cs) fd ≡ get_conn m fd)
  unfolding register_conn allocate_fd get_conn
  accepted m fd [] h fits = (omega arith, refl)
  accepted m fd (c ∷ cs) h fits =
      let m' = (register_conn m c server).0 in
      let below : (m.server_next_fd + 1) % 2 ^ 64 ≡ m.server_next_fd + 1 = omega (arith, h, fits) in
      let (next, same) = accepted m' fd cs (omega (arith, h, below)) fits in
      (
        omega (arith, next, below),
        same
            ∙ lookup-insert m.server_next_fd fd c m.conn_map
            ∙ ground (arith, nat_beq_iff m.server_next_fd fd, h),
      )

  -- A client connects first, then the server accepts a thousand connections. The client's connection is
  -- still there, and the next connection that the server accepts gets the client's descriptor: the
  -- descriptor then stands for the server's connection.
  pub server_takes_client_fd :
      (c d : C) (cs : List C)
      → length cs ≡ 1000
      → let (m0, fd) = register_conn new_connection_manager c client in
        let m = accept_all m0 cs in
        let (m', fd') = register_conn m d server in
        (fd' ≡ fd) × (get_conn m fd ≡ some c) × (get_conn m' fd ≡ some d)
  unfolding register_conn allocate_fd get_conn
  server_takes_client_fd c d cs size =
      let m0 = (register_conn new_connection_manager c client).0 in
      let m = accept_all m0 cs in
      let (next, same) = accepted m0 2000 cs (omega (arith, size)) (omega arith) in
      let at : m.server_next_fd ≡ 2000 = next ∙ omega (arith, size) in
      (
        at,
        same ∙ ground (arith, lookup-insert {K = ℕ} 2000 2000 c []),
        lookup-insert m.server_next_fd 2000 d m.conn_map
            ∙ ground (arith, nat_beq_iff m.server_next_fd 2000, at),
      )
