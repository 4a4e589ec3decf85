-- ===== src/AuthManager/Reachable.antt =====
-- The steps of auth_manager.go keep every manager under its own id and without device info.
use dsoftbus_go.Base.{
  ℕ, nat_eq, ◌≡◌, ◌≢◌, refl, if◌then◌else◌, Bool, true, false, List, [], ◌∷◌, Option, none, some,
  Option-cases, Bool-cases, Result, ok, err, Result-cases, inl, inr, arith,
}
use dsoftbus_go.Base.Int.{ℤ, int_eq}
use dsoftbus_go.Base.Text.{Bytes}
use dsoftbus_go.Base.Table.{lookup}
use dsoftbus_go.Types.{AuthConnInfo}
use dsoftbus_go.Conn.{
  ConnEvent, ConnError, connect_result, disconnected, data_received, socket_disconnect_device,
  socket_post_bytes, connect_auth_device, post_auth_data, auth_conn_init,
}
use dsoftbus_go.AuthSession.{GroupAuthAnswers}
use dsoftbus_go.AuthManager.{
  AuthManager, AuthConnCallback, AuthWorld, ManagerCall, ManagerError, not_initialized,
  with_service,
}
use dsoftbus_go.AuthManager.Events.{on_auth_disconnected}
use dsoftbus_go.AuthManager.Service.{
  deinit_internal, init_layers, auth_device_init, handle_event, handle_events, open_with,
  after_connect, client_manager, with_client_manager, set_callback, auth_device_open_conn,
  auth_device_close_conn,
}
use dsoftbus_go.AuthManager.ById.{
  manager_of, trans_head, auth_device_post_trans_data, auth_manager_set_session_key,
  auth_manager_get_session_key, auth_manager_get_latest_session_key,
}
use dsoftbus_go.AuthManager.Getters.{
  device_auth_on_finish, device_auth_on_session_key_returned, auth_device_get_device_uuid,
}
use dsoftbus_go.AuthManager.Steps.{AuthStep, AuthRun}
use dsoftbus_go.AuthManager.Invariant.{
  WellFormed, insert-AllPlain, delete-AllPlain, lookup-IsPlain, connect_result-WellFormed,
  received-WellFormed,
}

deinit-WellFormed : (w : AuthWorld) → WellFormed w → WellFormed (deinit_internal w).0
unfolding deinit_internal
deinit-WellFormed w v = elim (Bool-cases w.service.initialized) [
  | inl e ↦ rw (e, deinit_internal) tt
  | inr e ↦ rw (e, deinit_internal) v
]

layers-WellFormed :
    (ok : Bool) (c : AuthConnCallback) (w : AuthWorld)
    → WellFormed w
    → WellFormed (init_layers ok c w).0
unfolding init_layers auth_conn_init
layers-WellFormed false c w v = v
layers-WellFormed true c w v = v

init-WellFormed :
    (ok : Bool) (c : Option AuthConnCallback) (w : AuthWorld)
    → WellFormed w
    → WellFormed (auth_device_init ok c w).0
unfolding auth_device_init
init-WellFormed b none w v = v
init-WellFormed b (some c) w v = layers-WellFormed b c (deinit_internal w).0 (deinit-WellFormed w v)

event-WellFormed :
    (a : GroupAuthAnswers) (w : AuthWorld) (e : ConnEvent) (now : ℕ)
    → WellFormed w
    → WellFormed (handle_event a w e now).0
unfolding handle_event
event-WellFormed a w (connect_result r c result info) now v =
    connect_result-WellFormed a w r c result info now v
event-WellFormed a w (disconnected c info) now v = v
event-WellFormed a w (data_received c info b head payload) now v = v
event-WellFormed a w (socket_disconnect_device fd) now v = v
event-WellFormed a w (socket_post_bytes fd head payload) now v = v

events-WellFormed :
    (a : GroupAuthAnswers) (w : AuthWorld) (es : List ConnEvent) (now : ℕ)
    → WellFormed w
    → WellFormed (handle_events a w es now).0
unfolding handle_events
events-WellFormed a w [] now v = v
events-WellFormed a w (e ∷ es) now v =
    events-WellFormed a (handle_event a w e now).0 es now (event-WellFormed a w e now v)

after-WellFormed :
    (id : ℤ) (r : Result ConnError (Unit {0})) (o : AuthWorld × List ManagerCall)
    → WellFormed o.0
    → WellFormed (after_connect id r o).0
unfolding after_connect
after-WellFormed id (ok u) (w, calls) v = v
after-WellFormed id (err e) (w, calls) v = delete-AllPlain id w.service.managers v

open_with-WellFormed :
    (a : GroupAuthAnswers) (w : AuthWorld) (info : AuthConnInfo) (r now : ℕ) (answer : Option ℤ)
    (later : ℕ)
    → WellFormed w
    → WellFormed (open_with a w info r now answer later).0
unfolding open_with
open_with-WellFormed a w info r now answer later v =
    let m = client_manager w.service info r now in
    let res = connect_auth_device w.connections r (some info) now answer later in
    after-WellFormed m.auth_id res.2
      (handle_events a (record w { service = with_client_manager w.service m; connections = res.0 })
        res.1 later)
      (events-WellFormed a
        (record w { service = with_client_manager w.service m; connections = res.0 }) res.1 later
        (insert-AllPlain m w.service.managers refl v))

callback-WellFormed :
    (c : Option AuthConnCallback) (w : AuthWorld)
    → WellFormed w
    → WellFormed (with_service w (set_callback c w.service))
callback-WellFormed none w v = v
callback-WellFormed (some c) w v = v

branch-WellFormed :
    (b : Bool) (x y : AuthWorld × List ManagerCall × Option ManagerError)
    → WellFormed x.0
    → WellFormed y.0
    → WellFormed (if b then x else y).0
branch-WellFormed true x y v u = v
branch-WellFormed false x y v u = u

open-WellFormed :
    (a : GroupAuthAnswers) (w : AuthWorld) (info : Option AuthConnInfo) (r : ℕ)
    (c : Option AuthConnCallback) (now : ℕ) (answer : Option ℤ) (later : ℕ)
    → WellFormed w
    → WellFormed (auth_device_open_conn a w info r c now answer later).0
unfolding auth_device_open_conn
open-WellFormed a w none r c now answer later v = v
open-WellFormed a w (some info) r c now answer later v =
    branch-WellFormed w.service.initialized
      (open_with a (with_service w (set_callback c w.service)) info r now answer later)
      (w, [], some not_initialized)
      (open_with-WellFormed a (with_service w (set_callback c w.service)) info r now answer later
        (callback-WellFormed c w v))
      v

close-WellFormed :
    (w : AuthWorld) (id : ℤ) → WellFormed w → WellFormed (auth_device_close_conn w id).0
unfolding auth_device_close_conn
close-WellFormed w id v = elim (Bool-cases w.service.initialized) [
  | inr e ↦ rw (e, auth_device_close_conn) v
  | inl e ↦ elim (Option-cases (lookup id w.service.managers)) [
    | inl l ↦ rw (e, l, auth_device_close_conn) v
    | inr (m, l) ↦ rw (e, l, auth_device_close_conn) (delete-AllPlain id w.service.managers v)
  ]
]

disconnect-WellFormed :
    (w : AuthWorld) (c : ℕ)
    → WellFormed w
    → WellFormed (with_service w (on_auth_disconnected w.service c))
unfolding on_auth_disconnected
disconnect-WellFormed w c v = elim (Option-cases (lookup c w.service.conn_id_to_auth_id)) [
  | inl e ↦ rw (e, on_auth_disconnected) v
  | inr (id, e) ↦ rw (e, on_auth_disconnected) (delete-AllPlain id w.service.managers v)
]

manager_of-ok :
    (w : AuthWorld) (id : ℤ) (m : AuthManager)
    → manager_of w.service id ≡ ok m
    → lookup id w.service.managers ≡ some m
unfolding manager_of
manager_of-ok w id m e = ground arith

post-WellFormed :
    (w : AuthWorld) (id module_id flag : ℤ) (payload : List ℕ) (now : ℕ)
    → WellFormed w
    → WellFormed (auth_device_post_trans_data w id module_id flag payload now).0
unfolding auth_device_post_trans_data
post-WellFormed w id module_id flag payload now v = elim (Result-cases (manager_of w.service id)) [
  | inr (e, q) ↦ rw (q, auth_device_post_trans_data) v
  | inl (m, q) ↦
      elim (Result-cases
        (post_auth_data w.connections m.conn_id (trans_head m module_id flag payload) payload)) [
          | inr (e, p) ↦ rw (q, p, auth_device_post_trans_data) v
          | inl (event, p) ↦
              rw (q, p, auth_device_post_trans_data)
                (insert-AllPlain (record m { last_active_time = now }) w.service.managers
                  (lookup-IsPlain id m w.service.managers v (manager_of-ok w id m q)).no_info v)
        ]
]

step-WellFormed : {w w' : AuthWorld} → AuthStep w w' → WellFormed w → WellFormed w'
unfolding auth_manager_set_session_key auth_manager_get_session_key
    auth_manager_get_latest_session_key device_auth_on_session_key_returned device_auth_on_finish
step-WellFormed (AuthStep.initialised b c w) v = init-WellFormed b c w v
step-WellFormed (AuthStep.deinitialised w) v = deinit-WellFormed w v
step-WellFormed (AuthStep.opened a w info r c now answer later) v =
    open-WellFormed a w info r c now answer later v
step-WellFormed (AuthStep.closed w id) v = close-WellFormed w id v
step-WellFormed (AuthStep.posted w id module_id flag payload now) v =
    post-WellFormed w id module_id flag payload now v
step-WellFormed (AuthStep.connect_reported a w r c result info now) v =
    connect_result-WellFormed a w r c result info now v
step-WellFormed (AuthStep.disconnect_reported w c) v = disconnect-WellFormed w c v
step-WellFormed (AuthStep.received a w c info b head payload now) v =
    received-WellFormed a w c info b head payload now v
step-WellFormed (AuthStep.key_set w id key now) v = elim (Result-cases (manager_of w.service id)) [
  | inr (e, q) ↦ rw (q, auth_manager_set_session_key) v
  | inl (m, q) ↦ rw (q, auth_manager_set_session_key) v
]
step-WellFormed (AuthStep.key_read w id index now) v =
    elim (Result-cases (manager_of w.service id)) [
      | inr (e, q) ↦ rw (q, auth_manager_get_session_key) v
      | inl (m, q) ↦ rw (q, auth_manager_get_session_key) v
    ]
step-WellFormed (AuthStep.latest_key_read w id now) v =
    elim (Result-cases (manager_of w.service id)) [
      | inr (e, q) ↦ rw (q, auth_manager_get_latest_session_key) v
      | inl (m, q) ↦ rw (q, auth_manager_get_latest_session_key) v
    ]
step-WellFormed (AuthStep.key_returned w m key now) v = v
step-WellFormed (AuthStep.finished w id m e) v =
    insert-AllPlain (record m { has_auth_passed = true }) w.service.managers
      (lookup-IsPlain id m w.service.managers v e).no_info v
step-WellFormed (AuthStep.session_step w s) v = v
step-WellFormed (AuthStep.connection_step w c) v = v

run-WellFormed : {w w' : AuthWorld} → AuthRun w w' → WellFormed w → WellFormed w'
run-WellFormed (AuthRun.here w) v = v
run-WellFormed (AuthRun.then_step r s) v = step-WellFormed s (run-WellFormed r v)

uuid_unknown :
    (w : AuthWorld) (id : ℤ) (uuid : Bytes)
    → WellFormed w
    → auth_device_get_device_uuid w.service id ≢ ok uuid
unfolding auth_device_get_device_uuid manager_of
uuid_unknown w id uuid v e = elim (Option-cases (lookup id w.service.managers)) [
  | inl l ↦ ground arith
  | inr (m, l) ↦ let no_info = (lookup-IsPlain id m w.service.managers v l).no_info in ground arith
]

-- In every state that the operations of the service reach from one without managers, each manager that is
-- found by an id has this id, and AuthDeviceGetDeviceUuid returns no uuid for any id.
pub device_uuid_never_known :
    {w w' : AuthWorld}
    → w.service.managers ≡ []
    → AuthRun w w'
    → (id : ℤ)
    → ((m : AuthManager) → lookup id w'.service.managers ≡ some m → m.auth_id ≡ id)
      × ((uuid : Bytes) → auth_device_get_device_uuid w'.service id ≢ ok uuid)
device_uuid_never_known {w} {w'} e r id =
    let start : WellFormed w = rw e tt in
    let v = run-WellFormed r start in
    (
      λ m l. (lookup-IsPlain id m w'.service.managers v l).same_id,
      λ uuid. uuid_unknown w' id uuid v,
    )
