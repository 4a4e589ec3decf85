-- ===== src/AuthManager/Opening.antt =====
-- AuthDeviceOpenConn of auth_manager.go: a connection that is refused leaves no trace, and one that is
-- established starts HiChain.
use dsoftbus_go.Base.{
  List, ℕ, nat_eq, nat_beq_iff, ◌≡◌, refl, ap, ◌∙◌, ◌==◌, if◌then◌else◌, true, [], ◌∷◌, ◌++◌,
  append-nil, Option, none, some, Bool-cases, inl, inr, arith,
}
use dsoftbus_go.Base.Int.{ℤ, negsuc, int_eq}
use dsoftbus_go.Base.Table.{Table, lookup, insert, delete, lookup-insert, lookup-delete}
use dsoftbus_go.Types.{AuthConnInfo}
use dsoftbus_go.Conn.{
  AuthConnectionManager, connect_result, connect_failed, connect_auth_device, report_result,
  with_request, without_request,
}
use dsoftbus_go.AuthSession.{GroupAuthAnswers}
use dsoftbus_go.AuthManager.{
  ManagerCall, AuthManager, AuthManagerService, AuthConnCallback, AuthWorld, add_one,
  connection_failed, find_by_request_id, tell_open_failed, on_conn_open_failed, with_service,
}
use dsoftbus_go.AuthManager.Events.{on_auth_connect_result, connect_failed_for}
use dsoftbus_go.AuthManager.Service.{
  handle_event, handle_events, open_with, after_connect, client_manager, with_client_manager,
  set_callback, auth_device_open_conn, without_manager,
}

-- A request that no manager has is found at the manager that is stored for it.
find-insert :
    (id : ℤ) (m : AuthManager) (t : Table ℤ AuthManager)
    → find_by_request_id m.request_id t ≡ none
    → find_by_request_id m.request_id (insert id m t) ≡ some m
unfolding find_by_request_id insert
find-insert id m [] e = ground (arith, nat_beq_iff m.request_id m.request_id)
find-insert id m (entry ∷ t) e = elim (Bool-cases (entry.1.request_id == m.request_id)) [
  | inl d ↦ absurd (ground arith)
  | inr d ↦
      let own : (m.request_id == m.request_id) ≡ true =
        (nat_beq_iff m.request_id m.request_id).1 refl in
      elim (Bool-cases (entry.0 == id)) [
        | inl k ↦ rw k (rw own refl)
        | inr k ↦ rw k (rw d (find-insert id m t (ground arith)))
      ]
]

refused :
    (a : GroupAuthAnswers) (w : AuthWorld) (info : AuthConnInfo) (m : AuthManager) (now : ℕ)
    → find_by_request_id m.request_id w.service.managers ≡ some m
    → handle_events a w (connect_result m.request_id 0 (negsuc 0) info ∷ []) now ≡ (
      without_manager w m.auth_id,
      tell_open_failed w.service.callback m.request_id (negsuc 0) ++ [],
    )
unfolding handle_events handle_event on_auth_connect_result connect_failed_for
refused a w info m now e = rw (e, on_auth_connect_result) refl

-- The callback of the call if it has one, and else the global one.
abbrev pub chosen : Option AuthConnCallback → Option AuthConnCallback → Option AuthConnCallback
chosen (some own) global = some own
chosen none global = global

-- What the application is told through a callback.
abbrev pub failure_told : ℕ → Option AuthConnCallback → List ManagerCall
failure_told r none = []
failure_told r (some c) = if c.open_failed then on_conn_open_failed r (negsuc 0) ∷ [] else []

told-failure_told :
    (r : ℕ) (c : Option AuthConnCallback) → tell_open_failed c r (negsuc 0) ≡ failure_told r c
unfolding tell_open_failed
told-failure_told r none = refl
told-failure_told r (some c) = refl

set_callback-managers :
    (c : Option AuthConnCallback) (s : AuthManagerService)
    → (set_callback c s).managers ≡ s.managers
set_callback-managers none s = refl
set_callback-managers (some c) s = refl

module _ (a : GroupAuthAnswers) (info : AuthConnInfo) (r now later : ℕ) where
  -- After the manager is stored and the request is forgotten again.
  abbrev tried : AuthWorld → AuthConnectionManager → AuthWorld
  tried w c = record w {
    service = with_client_manager w.service (client_manager w.service info r now);
    connections = some (without_request (with_request c r info now) r);
  }

  refused_with :
      (w : AuthWorld) (c : AuthConnectionManager)
      → w.connections ≡ some c
      → c.listener.on_connect_result ≡ true
      → find_by_request_id r w.service.managers ≡ none
      → let m = client_manager w.service info r now in
        open_with a w info r now none later ≡ (
          without_manager (without_manager (tried w c) m.auth_id) m.auth_id,
          tell_open_failed w.service.callback r (negsuc 0) ++ [],
          some (connection_failed connect_failed),
        )
  unfolding open_with connect_auth_device after_connect
  refused_with w c cs l e =
      let m = client_manager w.service info r now in
      let told : report_result c r 0 (negsuc 0) info ≡ connect_result r 0 (negsuc 0) info ∷ [] =
        unfold report_result in rw l refl in
      let handled =
        refused a (tried w c) info m later (find-insert m.auth_id m w.service.managers e) in
      rw (cs, connect_auth_device) (rw told (rw handled refl))

  gone :
      (id new : ℤ) (m : AuthManager) (t : Table ℤ AuthManager)
      → lookup id (delete new (delete new (insert new m t)))
        ≡ (if new == id then none else lookup id t)
  gone id new m t = ground (
    arith,
    lookup-delete new id (delete new (insert new m t)),
    lookup-delete new id (insert new m t),
    lookup-insert new id m t,
  )

  opens :
      (w : AuthWorld) (callback : Option AuthConnCallback) (answer : Option ℤ)
      → w.service.initialized ≡ true
      → auth_device_open_conn a w (some info) r callback now answer later
        ≡ open_with a (with_service w (set_callback callback w.service)) info r now answer later
  unfolding auth_device_open_conn
  opens w callback answer i = ground arith

  refused_open :
      (w w' : AuthWorld) (c : AuthConnectionManager)
      → w'.connections ≡ some c
      → c.listener.on_connect_result ≡ true
      → w'.service.managers ≡ w.service.managers
      → find_by_request_id r w.service.managers ≡ none
      → let o = open_with a w' info r now none later in
        (o.2 ≡ some (connection_failed connect_failed))
        × (o.1 ≡ failure_told r w'.service.callback)
        × (o.0.service.callback ≡ w'.service.callback)
        × (o.0.sessions ≡ w'.sessions)
        × (o.0.service.conn_id_to_auth_id ≡ w'.service.conn_id_to_auth_id)
        × ((id : ℤ)
            → lookup id o.0.service.managers ≡ (
                if add_one w'.service.auth_id_counter == id
                then none
                else lookup id w.service.managers))
  refused_open w w' c cs l same e =
      let m = client_manager w'.service info r now in
      rw (refused_with w' c cs l (ap (λ t. find_by_request_id r t) same ∙ e)) (
        refl,
        append-nil _ ∙ told-failure_told r w'.service.callback,
        refl,
        refl,
        refl,
        λ id.
            gone id m.auth_id m w'.service.managers
            ∙ ap (λ (t : Table ℤ AuthManager). if m.auth_id == id then none else lookup id t) same,
      )

  -- The service is initialised with a connection manager that reports results to it, no manager has the
  -- request's id, and the peer cannot be connected. Then AuthDeviceOpenConn returns the error. The callback
  -- of this call, if it has one, becomes the global one, and this one is told once that the request failed
  -- with -1, if its OnConnOpenFailed is set; nothing else is called. The sessions, the connections' ids and
  -- the manager of every id but the next one, which has none, are as before.
  pub refused_connection_leaves_nothing :
      (w : AuthWorld) (callback : Option AuthConnCallback) (c : AuthConnectionManager)
      → w.service.initialized ≡ true
      → w.connections ≡ some c
      → c.listener.on_connect_result ≡ true
      → find_by_request_id r w.service.managers ≡ none
      → let o = auth_device_open_conn a w (some info) r callback now none later in
        (o.2 ≡ some (connection_failed connect_failed))
        × (o.1 ≡ failure_told r (chosen callback w.service.callback))
        × (o.0.service.callback ≡ chosen callback w.service.callback)
        × (o.0.sessions ≡ w.sessions)
        × (o.0.service.conn_id_to_auth_id ≡ w.service.conn_id_to_auth_id)
        × ((id : ℤ)
            → lookup id o.0.service.managers ≡ (
                if add_one w.service.auth_id_counter == id
                then none
                else lookup id w.service.managers))
  refused_connection_leaves_nothing w none c i cs l e =
      rw (opens w none none i) (refused_open w w c cs l refl e)
  refused_connection_leaves_nothing w (some cb) c i cs l e =
      rw (opens w (some cb) none i)
        (refused_open w (with_service w (set_callback (some cb) w.service)) c cs l refl e)
