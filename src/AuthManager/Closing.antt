-- ===== src/AuthManager/Closing.antt =====
-- AuthDeviceCloseConn of auth_manager.go: what is left of the connection in every layer.
use dsoftbus_go.Base.{
  ℕ, nat_eq, nat_beq_iff, ◌≡◌, refl, ◌∙◌, ◌==◌, if◌then◌else◌, true, List, Option, none, some,
  Option-cases, err, inl, inr, arith,
}
use dsoftbus_go.Base.Int.{ℤ, int_eq, int_beq_iff}
use dsoftbus_go.Base.Table.{lookup, delete, lookup-delete}
use dsoftbus_go.Conn.{AuthConnectionManager, AuthConnection, disconnect_auth_device}
use dsoftbus_go.AuthManager.{AuthManager, AuthWorld, not_found}
use dsoftbus_go.AuthManager.Service.{auth_device_close_conn}
use dsoftbus_go.AuthManager.ById.{auth_device_post_trans_data, manager_of}
use dsoftbus_go.AuthManager.Getters.{get_auth_manager_by_conn_id}

abbrev pub connection_of : Option AuthConnectionManager → ℕ → Option AuthConnection
connection_of none c = none
connection_of (some m) c = lookup c m.connections

disconnected_from :
    (c : Option AuthConnectionManager) (conn_id : ℕ)
    → connection_of (disconnect_auth_device c conn_id).0 conn_id ≡ none
unfolding disconnect_auth_device
disconnected_from none conn_id = refl
disconnected_from (some m) conn_id = elim (Option-cases (lookup conn_id m.connections)) [
  | inl e ↦ rw (e, disconnect_auth_device) e
  | inr (conn, e) ↦
      rw (e, disconnect_auth_device)
        (lookup-delete conn_id conn_id m.connections
          ∙ rw ((nat_beq_iff conn_id conn_id).1 refl) refl)
]

not_posted :
    (w : AuthWorld) (auth_id module_id flag : ℤ) (payload : List ℕ) (now : ℕ)
    → w.service.initialized ≡ true
    → lookup auth_id w.service.managers ≡ none
    → auth_device_post_trans_data w auth_id module_id flag payload now ≡ (w, err not_found)
unfolding auth_device_post_trans_data manager_of
not_posted w auth_id module_id flag payload now i e =
    let missing : manager_of w.service auth_id ≡ err not_found = ground arith in
    rw (missing, auth_device_post_trans_data) refl

abbrev without_connection : AuthWorld → ℤ → AuthManager → AuthWorld
without_connection w auth_id m = record w {
  service = record w.service {
    managers = delete auth_id w.service.managers;
    conn_id_to_auth_id = delete m.conn_id w.service.conn_id_to_auth_id;
  };
  connections = (disconnect_auth_device w.connections m.conn_id).0;
}

closed :
    (w : AuthWorld) (auth_id : ℤ) (m : AuthManager)
    → w.service.initialized ≡ true
    → lookup auth_id w.service.managers ≡ some m
    → (auth_device_close_conn w auth_id).0 ≡ without_connection w auth_id m
unfolding auth_device_close_conn
closed w auth_id m i e = ground arith

-- The service is initialised and `auth_id` has a manager. After AuthDeviceCloseConn the table of managers
-- has no entry for it and is as before for every other id, no manager is found for the connection, the
-- connection manager has the connection no more, and posting any data to the id fails with "not found" and
-- changes nothing.
pub closed_everywhere :
    (w : AuthWorld) (auth_id : ℤ) (m : AuthManager)
    → w.service.initialized ≡ true
    → lookup auth_id w.service.managers ≡ some m
    → let w' = (auth_device_close_conn w auth_id).0 in
      ((id : ℤ)
        → lookup id w'.service.managers
          ≡ (if auth_id == id then none else lookup id w.service.managers))
      × (get_auth_manager_by_conn_id w'.service m.conn_id ≡ err not_found)
      × (connection_of w'.connections m.conn_id ≡ none)
      × ((module_id flag : ℤ) (payload : List ℕ) (now : ℕ)
          → auth_device_post_trans_data w' auth_id module_id flag payload now ≡ (w', err not_found))
unfolding get_auth_manager_by_conn_id
closed_everywhere w auth_id m i e =
    let w' = without_connection w auth_id m in
    let gone : lookup auth_id (delete auth_id w.service.managers) ≡ none =
      lookup-delete auth_id auth_id w.service.managers
      ∙ rw ((int_beq_iff auth_id auth_id).1 refl) refl in
    let unmapped : lookup m.conn_id (delete m.conn_id w.service.conn_id_to_auth_id) ≡ none =
      lookup-delete m.conn_id m.conn_id w.service.conn_id_to_auth_id
      ∙ rw ((nat_beq_iff m.conn_id m.conn_id).1 refl) refl in
    rw (closed w auth_id m i e) (
      λ id. lookup-delete auth_id id w.service.managers,
      rw (unmapped, get_auth_manager_by_conn_id) refl,
      disconnected_from w.connections m.conn_id,
      λ module_id flag payload now. not_posted w' auth_id module_id flag payload now i gone,
    )
