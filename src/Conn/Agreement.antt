-- ===== src/Conn/Agreement.antt =====
-- The two tables of auth_connection.go agree after every operation, so no handler meets a nil
-- connection.
use dsoftbus_go.Base.{
  ℕ, ◌≡◌, ◌≢◌, refl, ap, sym, ◌∙◌, subst, arith, ◌==◌, nat_eq, nat_beq_iff, Bool, false, Option,
  none, some, Option-cases, Bool-cases, inl, inr,
}
use dsoftbus_go.Base.Int.{ℤ, IsInt32, int_eq, int_beq_iff, int32-uint32}
use dsoftbus_go.Base.Table.{Table, lookup, lookup-insert, lookup-delete}
use dsoftbus_go.Types.{AuthConnInfo, get_fd}
use dsoftbus_go.Types.ConnId.{get_fd-gen_conn_id}
use dsoftbus_go.Conn.{
  AuthConnection, AuthConnectionManager, add_connection, new_connection, drop_connection,
  earliest_from, client_connected,
}

abbrev pub Owns : ℤ → ℕ → Option AuthConnection → Type 0
Owns fd c none = ⊥
Owns fd c (some conn) = (conn.fd ≡ fd) × (get_fd c ≡ fd)

abbrev pub EntryAgrees : Table ℕ AuthConnection → ℤ → Option ℕ → Type 0
EntryAgrees t fd none = Unit {0}
EntryAgrees t fd (some c) = Owns fd c (lookup c t)

-- The id of every descriptor is an id of a connection of this descriptor.
abbrev pub Agrees : AuthConnectionManager → Type 0
Agrees m = (fd : ℤ) → EntryAgrees m.connections fd (lookup fd m.fd_to_conn_id)

abbrev pub AllAgree : Option AuthConnectionManager → Type 0
AllAgree none = Unit {0}
AllAgree (some m) = Agrees m

-- Another descriptor's entry does not see a change of this one's connection.
entry_kept :
    (t t' : Table ℕ AuthConnection) (fd' : ℤ) (c : Option ℕ)
    → EntryAgrees t fd' c
    → ((d : ℕ) → Owns fd' d (lookup d t) → lookup d t' ≡ lookup d t)
    → EntryAgrees t' fd' c
entry_kept t t' fd' none h same = tt
entry_kept t t' fd' (some d) h same = subst (Owns fd' d) (sym (same d h)) h

owner_fd : (fd' : ℤ) (d : ℕ) (o : Option AuthConnection) → Owns fd' d o → get_fd d ≡ fd'
owner_fd fd' d none h = absurd h
owner_fd fd' d (some conn) (_, h) = h

owner_conn :
    (fd' : ℤ) (d : ℕ) (o : Option AuthConnection) (conn : AuthConnection)
    → Owns fd' d o
    → o ≡ some conn
    → conn.fd ≡ fd'
owner_conn fd' d none conn h e = absurd h
owner_conn fd' d (some x) conn (h, _) e = ground (arith, h)

pub added-Agrees :
    (m : AuthConnectionManager) (conn : AuthConnection)
    → get_fd conn.conn_id ≡ conn.fd
    → Agrees m
    → Agrees (add_connection m conn)
added-Agrees m conn h v fd' = elim (Bool-cases (conn.fd == fd')) [
  | inl hit ↦
      let same = (int_beq_iff conn.fd fd').0 hit in
      rw (lookup-insert conn.fd fd' conn.conn_id m.fd_to_conn_id, hit)
        (rw
          (
            lookup-insert conn.conn_id conn.conn_id conn m.connections,
            (nat_beq_iff conn.conn_id conn.conn_id).1 refl,
          )
          (same, h ∙ same))
  | inr miss ↦
      rw (lookup-insert conn.fd fd' conn.conn_id m.fd_to_conn_id, miss)
        (entry_kept m.connections (add_connection m conn).connections fd'
          (lookup fd' m.fd_to_conn_id) (v fd')
          (λ d own.
            let at = owner_fd fd' d (lookup d m.connections) own in
            rw (lookup-insert conn.conn_id d conn m.connections)
              (ground (arith, nat_beq_iff conn.conn_id d, other d at miss))))
]
  where
    other : (d : ℕ) → get_fd d ≡ fd' → (conn.fd == fd') ≡ false → conn.conn_id ≢ d
    other d at miss e = absurd (cc (miss, (int_beq_iff conn.fd fd').1 (sym h ∙ ap get_fd e ∙ at)))

pub dropped-Agrees :
    (m : AuthConnectionManager) (c : ℕ) (fd : ℤ) (conn : AuthConnection)
    → lookup c m.connections ≡ some conn
    → conn.fd ≡ fd
    → Agrees m
    → Agrees (drop_connection m c fd)
dropped-Agrees m c fd conn e h v fd' = elim (Bool-cases (fd == fd')) [
  | inl hit ↦ rw (lookup-delete fd fd' m.fd_to_conn_id, hit) tt
  | inr miss ↦
      rw (lookup-delete fd fd' m.fd_to_conn_id, miss)
        (entry_kept m.connections (drop_connection m c fd).connections fd'
          (lookup fd' m.fd_to_conn_id) (v fd')
          (λ d own.
            rw (lookup-delete c d m.connections)
              (ground (arith, nat_beq_iff c d, other d own miss))))
]
  where
    other : (d : ℕ) → Owns fd' d (lookup d m.connections) → (fd == fd') ≡ false → c ≢ d
    other d own miss same =
        let found : lookup d m.connections ≡ some conn =
          subst (λ (x : ℕ). lookup x m.connections ≡ some conn) same e in
        absurd (
          cc (
            miss,
            (int_beq_iff fd fd').1
                (sym h ∙ owner_conn fd' d (lookup d m.connections) conn own found),
          ))

pub new_connection-get_fd :
    (link fd : ℤ) (info : AuthConnInfo) (is_server : Bool) (now : ℕ)
    → IsInt32 fd
    → get_fd (new_connection link fd info is_server now).conn_id ≡ fd
new_connection-get_fd link fd info is_server now h =
    rw (int32-uint32 fd h) (get_fd-gen_conn_id link fd h)

pub client_connected-Agrees :
    (m : AuthConnectionManager) (fd : ℤ) (now : ℕ)
    → IsInt32 fd
    → Agrees m
    → Agrees (client_connected m fd now).0
unfolding client_connected
client_connected-Agrees m fd now h v = elim (Option-cases (earliest_from none m.requests)) [
  | inl e ↦ rw (e, client_connected) v
  | inr ((id, req), e) ↦
      rw (e, client_connected)
        (added-Agrees m (new_connection req.conn_info.link_type fd req.conn_info false now)
          (new_connection-get_fd req.conn_info.link_type fd req.conn_info false now h) v)
]
