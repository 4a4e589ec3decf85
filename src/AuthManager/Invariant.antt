-- ===== src/AuthManager/Invariant.antt =====
-- Every manager in the table of auth_manager.go stands under its own id, and none has device info.
use dsoftbus_go.Base.{
  ℕ, nat_eq, ◌≡◌, refl, ◌==◌, ◌&&◌, Bool, true, false, List, [], ◌∷◌, none, some, Option-cases,
  Bool-cases, inl, inr, arith,
}
use dsoftbus_go.Base.Int.{ℤ, pos, int_eq, int_beq_iff}
use dsoftbus_go.Base.Table.{Table, lookup, insert, delete}
use dsoftbus_go.Types.{AuthConnInfo, AuthDataHead, module_auth_sdk}
use dsoftbus_go.AuthSession.{GroupAuthAnswers, SessionOutcome, auth_session_start_auth}
use dsoftbus_go.AuthManager.{AuthManager, AuthWorld, put_manager, find_by_request_id, with_service}
use dsoftbus_go.AuthManager.Events.{
  connected, client_started, connect_failed_for, on_auth_connect_result, server_manager,
  with_server_manager, server_started, route_data, data_for, deliver_to_session,
  on_auth_data_received,
}

pub record IsPlain (id : ℤ) (m : AuthManager) : Type 0 where
  pub same_id : m.auth_id ≡ id
  pub no_info : m.device_info ≡ none

abbrev pub AllPlain : Table ℤ AuthManager → Type 0
AllPlain [] = Unit
AllPlain (entry ∷ t) = IsPlain entry.0 entry.1 × AllPlain t

abbrev pub WellFormed : AuthWorld → Type 0
WellFormed w = AllPlain w.service.managers

pub insert-AllPlain :
    (m : AuthManager) (t : Table ℤ AuthManager)
    → m.device_info ≡ none
    → AllPlain t
    → AllPlain (insert m.auth_id m t)
unfolding insert
insert-AllPlain m [] e v = (record { same_id = refl; no_info = e }, tt)
insert-AllPlain m (entry ∷ t) e (p, v) = elim (Bool-cases (entry.0 == m.auth_id)) [
  | inl d ↦ rw d (record { same_id = refl; no_info = e }, v)
  | inr d ↦ rw d (p, insert-AllPlain m t e v)
]

pub delete-AllPlain : (id : ℤ) (t : Table ℤ AuthManager) → AllPlain t → AllPlain (delete id t)
unfolding delete
delete-AllPlain id [] v = tt
delete-AllPlain id (entry ∷ t) (p, v) = elim (Bool-cases (entry.0 == id)) [
  | inl d ↦ rw d (delete-AllPlain id t v)
  | inr d ↦ rw d (p, delete-AllPlain id t v)
]

pub lookup-IsPlain :
    (id : ℤ) (m : AuthManager) (t : Table ℤ AuthManager)
    → AllPlain t
    → lookup id t ≡ some m
    → IsPlain id m
unfolding lookup
lookup-IsPlain id m [] v e = absurd (ground arith)
lookup-IsPlain id m (entry ∷ t) (p, v) e = elim (Bool-cases (entry.0 == id)) [
  | inl d ↦
      let same : entry.1 ≡ m = ground arith in
      let key = (int_beq_iff entry.0 id).0 d in
      let first : entry.1.auth_id ≡ entry.0 = p.same_id in
      let second : entry.1.device_info ≡ none = p.no_info in record { same_id = cc; no_info = cc }
  | inr d ↦ lookup-IsPlain id m t v (ground arith)
]

-- A manager that is found by its request.
pub find-IsPlain :
    (r : ℕ) (m : AuthManager) (t : Table ℤ AuthManager)
    → AllPlain t
    → find_by_request_id r t ≡ some m
    → m.device_info ≡ none
unfolding find_by_request_id
find-IsPlain r m [] v e = absurd (ground arith)
find-IsPlain r m (entry ∷ t) (p, v) e = elim (Bool-cases (entry.1.request_id == r)) [
  | inl d ↦ let same : entry.1 ≡ m = ground arith in let none_there = p.no_info in cc
  | inr d ↦ find-IsPlain r m t v (ground arith)
]

started-managers :
    (w : AuthWorld) (m : AuthManager) (r c : ℕ) (o : SessionOutcome)
    → (client_started w m r c o).0.service.managers ≡ w.service.managers
unfolding client_started
started-managers w m r c (sw, calls, none) = refl
started-managers w m r c (sw, calls, some e) = refl

pub connect_result-WellFormed :
    (a : GroupAuthAnswers) (w : AuthWorld) (r c : ℕ) (result : ℤ) (info : AuthConnInfo) (now : ℕ)
    → WellFormed w
    → WellFormed (on_auth_connect_result a w r c result info now).0
unfolding on_auth_connect_result connect_failed_for
connect_result-WellFormed a w r c result info now v =
    elim (Option-cases (find_by_request_id r w.service.managers)) [
      | inl e ↦ rw (e, on_auth_connect_result) v
      | inr (m, e) ↦ elim (Bool-cases (result == pos 0)) [
        | inr d ↦ rw (e, d, on_auth_connect_result) (delete-AllPlain m.auth_id w.service.managers v)
        | inl d ↦
            rw (e, d, on_auth_connect_result)
              (rw
                (started-managers (with_service w (connected w.service m c)) m r c
                  (auth_session_start_auth a w.sessions m.auth_seq r c (some info) false now))
                (insert-AllPlain (record m { conn_id = c }) w.service.managers
                  (find-IsPlain r m w.service.managers v e) v))
      ]
    ]

routed-managers :
    (a : GroupAuthAnswers) (w : AuthWorld) (id : ℤ) (head : AuthDataHead) (payload : List ℕ)
    → (route_data a w id head payload).0.service.managers ≡ w.service.managers
unfolding route_data deliver_to_session
routed-managers a w id head payload = ground arith

data-WellFormed :
    (a : GroupAuthAnswers) (w : AuthWorld) (id : ℤ) (head : AuthDataHead) (payload : List ℕ)
    (now : ℕ)
    → WellFormed w
    → WellFormed (data_for a w id head payload now).0
unfolding data_for
data-WellFormed a w id head payload now v = elim (Option-cases (lookup id w.service.managers)) [
  | inl e ↦ rw (e, data_for) v
  | inr (m, e) ↦
      rw (e, data_for)
        (rw
          (routed-managers a
            (with_service w (put_manager w.service (record m { last_active_time = now }))) id head
            payload)
          (insert-AllPlain (record m { last_active_time = now }) w.service.managers
            (lookup-IsPlain id m w.service.managers v e).no_info v))
]

server-WellFormed :
    (a : GroupAuthAnswers) (w : AuthWorld) (m : AuthManager) (head : AuthDataHead)
    (payload : List ℕ) (now : ℕ) (o : SessionOutcome)
    → WellFormed w
    → WellFormed (server_started a w m head payload now o).0
unfolding server_started
server-WellFormed a w m head payload now (sw, calls, some e) v = v
server-WellFormed a w m head payload now (sw, calls, none) v =
    data-WellFormed a _ m.auth_id head payload now v

pub received-WellFormed :
    (a : GroupAuthAnswers) (w : AuthWorld) (c : ℕ) (info : AuthConnInfo) (b : Bool)
    (head : AuthDataHead) (payload : List ℕ) (now : ℕ)
    → WellFormed w
    → WellFormed (on_auth_data_received a w c info b head payload now).0
unfolding on_auth_data_received
received-WellFormed a w c info b head payload now v =
    elim (Option-cases (lookup c w.service.conn_id_to_auth_id)) [
      | inr (id, e) ↦ rw (e, on_auth_data_received) (data-WellFormed a w id head payload now v)
      | inl e ↦ elim (Bool-cases (b && head.module_id == module_auth_sdk)) [
        | inr d ↦ rw (e, d, on_auth_data_received) v
        | inl d ↦
            let m = server_manager w.service c info now in
            rw (e, d, on_auth_data_received)
              (server-WellFormed a (with_service w (with_server_manager w.service m)) m head payload
                now (auth_session_start_auth a w.sessions m.auth_seq 0 c (some info) true now)
                (insert-AllPlain m w.service.managers refl v))
      ]
    ]
