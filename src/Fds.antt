-- ===== src/Fds.antt =====
-- pkg/utils/tcp_connection/manager.go: the connections behind virtual descriptors. A descriptor is an
-- int, kept as its 64 bits. Network connections are a parameter: what the code calls on one is in the
-- result.
pub mod Allocation
pub mod Reuse
pub mod Runs
use dsoftbus_go.Base.{
  ℕ, ◌+◌, ◌%◌, ◌^◌, ◌==◌, nat_eq, if◌then◌else◌, Bool, true, false, List, [], ◌∷◌, map, length,
  Option, none, some, Result, ok, err,
}
use dsoftbus_go.Base.Table.{Table, lookup, insert, delete}

abbrev pub server_fd_start : ℕ
server_fd_start = 1000

abbrev pub client_fd_start : ℕ
client_fd_start = 2000

pub data ConnectionType : Type 0 where
  server client : ConnectionType

pub record ConnectionManager (C : Type 0) : Type 0 where
  pub conn_map : Table ℕ C
  pub conn_type_map : Table ℕ ConnectionType
  pub server_next_fd : ℕ
  pub client_next_fd : ℕ

pub data FdError : Type 0 where
  no_conn not_tcp : FdError

module _ {C : Type 0} where
  abbrev pub new_connection_manager : ConnectionManager C
  new_connection_manager = record {
    conn_map = [];
    conn_type_map = [];
    server_next_fd = server_fd_start;
    client_next_fd = client_fd_start;
  }

  unfoldable pub allocate_fd : ConnectionManager C → ConnectionType → ConnectionManager C × ℕ
  allocate_fd m server =
      (record m { server_next_fd = (m.server_next_fd + 1) % 2 ^ 64 }, m.server_next_fd)
  allocate_fd m client =
      (record m { client_next_fd = (m.client_next_fd + 1) % 2 ^ 64 }, m.client_next_fd)

  unfoldable pub register_conn : ConnectionManager C → C → ConnectionType → ConnectionManager C × ℕ
  register_conn m conn conn_type =
      let (m', fd) = allocate_fd m conn_type in
      (
        record m' {
          conn_map = insert fd conn m'.conn_map;
          conn_type_map = insert fd conn_type m'.conn_type_map;
        },
        fd,
      )

  -- With the connection that was closed.
  unfoldable pub unregister_conn : ConnectionManager C → ℕ → ConnectionManager C × Option C
  unregister_conn m fd = elim (lookup fd m.conn_map) [
    | none ↦ (m, none)
    | some conn ↦ (
      record m { conn_map = delete fd m.conn_map; conn_type_map = delete fd m.conn_type_map },
      some conn,
    )
  ]

  unfoldable pub get_conn : ConnectionManager C → ℕ → Option C
  get_conn m fd = lookup fd m.conn_map

  unfoldable pub get_conn_type : ConnectionManager C → ℕ → Option ConnectionType
  get_conn_type m fd = lookup fd m.conn_type_map

  -- `is_tcp` is the type assertion to *net.TCPConn. The result is the connection that the bytes are
  -- written to.
  unfoldable pub send_bytes : (C → Bool) → ConnectionManager C → ℕ → Result FdError C
  send_bytes is_tcp m fd = elim (get_conn m fd) [
    | none ↦ err no_conn
    | some conn ↦ if is_tcp conn then ok conn else err not_tcp
  ]

  -- The connection to close: it stays in the tables.
  unfoldable pub close_conn : ConnectionManager C → ℕ → Result FdError C
  close_conn m fd = elim (get_conn m fd) [ none ↦ err no_conn | some conn ↦ ok conn ]

  unfoldable pub get_all_fds : ConnectionManager C → List ℕ
  get_all_fds m = map (λ (e : ℕ × C). e.0) m.conn_map

  unfoldable pub get_conn_count : ConnectionManager C → ℕ
  get_conn_count m = length m.conn_map

  -- The loop deletes every entry that it visits, with its type.
  unfoldable pub close_each : ConnectionManager C → Table ℕ C → ConnectionManager C × List C
  close_each m [] = (m, [])
  close_each m ((fd, conn) ∷ t) =
      let (m', closed) =
        close_each
          (record m { conn_map = delete fd m.conn_map; conn_type_map = delete fd m.conn_type_map })
          t in
      (m', conn ∷ closed)

  unfoldable pub close_all : ConnectionManager C → ConnectionManager C × List C
  close_all m = close_each m m.conn_map
