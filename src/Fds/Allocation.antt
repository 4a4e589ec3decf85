-- ===== src/Fds/Allocation.antt =====
-- manager.go: the descriptors in use stay below the counters, so registering keeps the connections
-- that are there.
use dsoftbus_go.Base.{
  ℕ, ◌+◌, ◌^◌, ◌≡◌, ◌≤◌, ◌<◌, refl, subst, arith, if◌then◌else◌, ◌==◌, nat_eq, nat_beq_iff, Option,
  none, some, Option-cases, Bool-cases, inl, inr,
}
use dsoftbus_go.Base.Table.{Table, lookup, insert, delete, lookup-insert, lookup-delete}
use dsoftbus_go.Fds.{
  ConnectionType, server, client, ConnectionManager, allocate_fd, register_conn, unregister_conn,
  get_conn, get_conn_type, server_fd_start, client_fd_start,
}

absent_other :
    (fd j : ℕ) {A : Type 0} (t : Table ℕ A)
    → lookup fd t ≡ none
    → lookup j t ≡ (if fd == j then none else lookup j t)
absent_other fd j t e = elim (Bool-cases (fd == j)) [
  | inl hit ↦ rw hit (subst (λ (x : ℕ). lookup x t ≡ none) ((nat_beq_iff fd j).0 hit) e)
  | inr miss ↦ rw miss refl
]

module _ {C : Type 0} where
  -- The descriptors that were given to connections of a type.
  abbrev pub Given : ConnectionManager C → ConnectionType → ℕ → Type 0
  Given m server fd = (server_fd_start ≤ fd) × (fd < m.server_next_fd)
  Given m client fd = (client_fd_start ≤ fd) × (fd < m.client_next_fd)

  abbrev pub EntryGiven : ConnectionManager C → ℕ → Option C → Option ConnectionType → Type 0
  EntryGiven m fd none none = Unit {0}
  EntryGiven m fd (some conn) (some t) = Given m t fd
  EntryGiven m fd _ _ = ⊥

  -- A descriptor has a connection exactly if it has a type, and it was given to this type.
  abbrev pub IsManager : ConnectionManager C → Type 0
  IsManager m =
      (server_fd_start ≤ m.server_next_fd)
      × (client_fd_start ≤ m.client_next_fd)
      × ((fd : ℕ) → EntryGiven m fd (lookup fd m.conn_map) (lookup fd m.conn_type_map))

  -- The next descriptor of the type is below the other type's range and does not wrap.
  abbrev pub HasRoom : ConnectionManager C → ConnectionType → Type 0
  HasRoom m server = m.server_next_fd < client_fd_start
  HasRoom m client = (m.server_next_fd ≤ client_fd_start) × (m.client_next_fd + 1 < 2 ^ 64)

  fresh_entry :
      (m : ConnectionManager C) (t : ConnectionType) (c : Option C) (o : Option ConnectionType)
      → HasRoom m t
      → server_fd_start ≤ m.server_next_fd
      → client_fd_start ≤ m.client_next_fd
      → EntryGiven m (allocate_fd m t).1 c o
      → c ≡ none
  unfolding allocate_fd
  fresh_entry m t none o room low low' h = refl
  fresh_entry m t (some c) none room low low' h = absurd h
  fresh_entry m server (some c) (some server) room low low' h = absurd (omega (arith, h, room))
  fresh_entry m server (some c) (some client) room low low' h = absurd (omega (arith, h, room))
  fresh_entry m client (some c) (some server) room low low' h =
      absurd (omega (arith, h, room, low'))
  fresh_entry m client (some c) (some client) room low low' h = absurd (omega (arith, h))

  next_Given :
      (m : ConnectionManager C) (t u : ConnectionType) (fd : ℕ)
      → HasRoom m t
      → Given m u fd
      → Given (allocate_fd m t).0 u fd
  unfolding allocate_fd
  next_Given m server server fd room h = (h.0, omega (arith, h, room))
  next_Given m server client fd room h = h
  next_Given m client server fd room h = h
  next_Given m client client fd room h = (h.0, omega (arith, h, room))

  new_Given :
      (m : ConnectionManager C) (t : ConnectionType)
      → HasRoom m t
      → server_fd_start ≤ m.server_next_fd
      → client_fd_start ≤ m.client_next_fd
      → Given (allocate_fd m t).0 t (allocate_fd m t).1
  unfolding allocate_fd
  new_Given m server room low low' = (low, omega (arith, room))
  new_Given m client room low low' = (low', omega (arith, room))

  next_entry :
      (m : ConnectionManager C) (t : ConnectionType) (fd : ℕ) (c : Option C)
      (o : Option ConnectionType)
      → HasRoom m t
      → EntryGiven m fd c o
      → EntryGiven (allocate_fd m t).0 fd c o
  next_entry m t fd none none room h = tt
  next_entry m t fd none (some u) room h = absurd h
  next_entry m t fd (some c) none room h = absurd h
  next_entry m t fd (some c) (some u) room h = next_Given m t u fd room h

  allocated_tables :
      (m : ConnectionManager C) (t : ConnectionType)
      → ((allocate_fd m t).0.conn_map ≡ m.conn_map)
        × ((allocate_fd m t).0.conn_type_map ≡ m.conn_type_map)
  unfolding allocate_fd
  allocated_tables m server = (refl, refl)
  allocated_tables m client = (refl, refl)

  low_kept :
      (m : ConnectionManager C) (t : ConnectionType)
      → HasRoom m t
      → server_fd_start ≤ m.server_next_fd
      → client_fd_start ≤ m.client_next_fd
      → (server_fd_start ≤ (allocate_fd m t).0.server_next_fd)
        × (client_fd_start ≤ (allocate_fd m t).0.client_next_fd)
  unfolding allocate_fd
  low_kept m server room low low' = (omega (arith, room), low')
  low_kept m client room low low' = (low, omega (arith, room))

  registered_entry :
      (m : ConnectionManager C) (conn : C) (t : ConnectionType) (j : ℕ)
      → IsManager m
      → HasRoom m t
      → let (m', fd) = allocate_fd m t in
        EntryGiven m' j
          (lookup j (insert fd conn m.conn_map))
          (lookup j (insert fd t m.conn_type_map))
  registered_entry m conn t j v room =
      let fd = (allocate_fd m t).1 in
      elim (Bool-cases (fd == j)) [
        | inl hit ↦
            rw (lookup-insert fd j conn m.conn_map, lookup-insert fd j t m.conn_type_map, hit)
              (subst (Given (allocate_fd m t).0 t) ((nat_beq_iff fd j).0 hit)
                (new_Given m t room v.0 v.1))
        | inr miss ↦
            rw (lookup-insert fd j conn m.conn_map, lookup-insert fd j t m.conn_type_map, miss)
              (next_entry m t j (lookup j m.conn_map) (lookup j m.conn_type_map) room (v.2 j))
      ]

  -- While server connections have not used up the descriptors below the clients' and the counter does not
  -- wrap, RegisterConn returns a descriptor that no connection has. Afterwards it stands for the new
  -- connection and its type, every other descriptor stands for what it stood for, and the invariant holds.
  pub register_conn_lem :
      (m : ConnectionManager C) (conn : C) (t : ConnectionType) (j : ℕ)
      → IsManager m
      → HasRoom m t
      → let (m', fd) = register_conn m conn t in
        (get_conn m fd ≡ none)
        × (get_conn m' j ≡ (if fd == j then some conn else get_conn m j))
        × (get_conn_type m' j ≡ (if fd == j then some t else get_conn_type m j))
        × IsManager m'
  unfolding register_conn get_conn get_conn_type
  register_conn_lem m conn t j v room =
      let fd = (allocate_fd m t).1 in
      let (same, same') = allocated_tables m t in
      rw (same, same')
        (
          fresh_entry m t (lookup fd m.conn_map) (lookup fd m.conn_type_map) room v.0 v.1 (v.2 fd),
          lookup-insert fd j conn m.conn_map,
          lookup-insert fd j t m.conn_type_map,
          (
            (low_kept m t room v.0 v.1).0,
            (low_kept m t room v.0 v.1).1,
            λ i. registered_entry m conn t i v room,
          ),
        )

  entry_none :
      (m : ConnectionManager C) (fd : ℕ) (c : Option C) (o : Option ConnectionType)
      → EntryGiven m fd c o
      → c ≡ none
      → o ≡ none
  entry_none m fd none none h e = refl
  entry_none m fd none (some t) h e = absurd h
  entry_none m fd (some c) o h e = absurd (cc e)

  unregistered_entry :
      (m : ConnectionManager C) (fd j : ℕ)
      → IsManager m
      → EntryGiven m j (lookup j (delete fd m.conn_map)) (lookup j (delete fd m.conn_type_map))
  unregistered_entry m fd j v = elim (Bool-cases (fd == j)) [
    | inl hit ↦ rw (lookup-delete fd j m.conn_map, lookup-delete fd j m.conn_type_map, hit) tt
    | inr miss ↦
        rw (lookup-delete fd j m.conn_map, lookup-delete fd j m.conn_type_map, miss) (v.2 j)
  ]

  -- UnregisterConn closes the connection that the descriptor stands for, if there is one. Afterwards the
  -- descriptor stands for none, every other descriptor for what it stood for, and the invariant holds.
  pub unregister_conn_lem :
      (m : ConnectionManager C) (fd j : ℕ)
      → IsManager m
      → let (m', closed) = unregister_conn m fd in
        (closed ≡ get_conn m fd)
        × (get_conn m' j ≡ (if fd == j then none else get_conn m j))
        × (get_conn_type m' j ≡ (if fd == j then none else get_conn_type m j))
        × IsManager m'
  unfolding unregister_conn get_conn get_conn_type
  unregister_conn_lem m fd j v = elim (Option-cases (lookup fd m.conn_map)) [
    | inl gone ↦
        rw (gone, unregister_conn)
          (
            refl,
            absent_other fd j m.conn_map gone,
            absent_other fd j m.conn_type_map
                (entry_none m fd (lookup fd m.conn_map) (lookup fd m.conn_type_map) (v.2 fd) gone),
            v,
          )
    | inr (conn, found) ↦
        rw (found, unregister_conn)
          (
            refl,
            lookup-delete fd j m.conn_map,
            lookup-delete fd j m.conn_type_map,
            (v.0, v.1, λ i. unregistered_entry m fd i v),
          )
  ]
