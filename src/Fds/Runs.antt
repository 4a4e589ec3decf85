-- ===== src/Fds/Runs.antt =====
-- Concrete descriptors, and the theorems at concrete inputs. A connection is a number here.
use dsoftbus_go.Base.{
  Bool, ℕ, zero, suc, ◌≡◌, refl, ap, arith, List, [], ◌∷◌, length, none, some, if◌then◌else◌, ◌==◌,
  nat_eq,
}
use dsoftbus_go.Base.Table.{lookup}
use dsoftbus_go.Fds.{
  server, client, ConnectionManager, new_connection_manager, register_conn, get_conn, get_conn_type,
}
use dsoftbus_go.Fds.Allocation.{IsManager, register_conn_lem}
use dsoftbus_go.Fds.Reuse.{accept_all, server_takes_client_fd}

abbrev no_conns : ConnectionManager ℕ
no_conns = new_connection_manager

no_conns-IsManager : IsManager no_conns
unfolding lookup
no_conns-IsManager = (omega arith, omega arith, λ fd. tt)

register_conn_lem_example :
    let (m', fd) = register_conn no_conns 7 server in
    (get_conn no_conns fd ≡ none)
    × (get_conn m' 1000 ≡ (if fd == 1000 then some 7 else get_conn no_conns 1000))
    × (get_conn_type m' 1000 ≡ (if fd == 1000 then some server else get_conn_type no_conns 1000))
    × IsManager m'
register_conn_lem_example =
    register_conn_lem no_conns 7 server 1000 no_conns-IsManager (omega arith)

abbrev same_fd : Bool
same_fd = ◌==◌ {K = ℕ} 1000 1000

abbrev one_conn : ConnectionManager ℕ
one_conn = (register_conn no_conns 7 server).0

one_conn-IsManager : IsManager one_conn
one_conn-IsManager = (register_conn_lem no_conns 7 server 1000 no_conns-IsManager (omega arith)).3

sevens : ℕ → List ℕ
sevens zero = []
sevens (suc n) = 7 ∷ sevens n

length-sevens : (n : ℕ) → length (sevens n) ≡ n
unfolding sevens
length-sevens zero = refl
length-sevens (suc n) = ap suc (length-sevens n)

server_takes_client_fd_example :
    let (m0, fd) = register_conn no_conns 1 client in
    let m = accept_all m0 (sevens 1000) in
    let (m', fd') = register_conn m 2 server in
    (fd' ≡ fd) × (get_conn m fd ≡ some 1) × (get_conn m' fd ≡ some 2)
server_takes_client_fd_example = server_takes_client_fd 1 2 (sevens 1000) (length-sevens 1000)
