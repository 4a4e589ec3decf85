-- ===== src/AuthSession/Once.antt =====
-- HiChain is started at most once for each session.
use dsoftbus_go.Base.{
  ℕ, ◌+◌, ◌≤◌, nat_eq, ◌≡◌, refl, sym, ap, ◌∙◌, subst, ◌==◌, if◌then◌else◌, ◌&&◌, Bool, true, false,
  List, [], ◌∷◌, ◌++◌, Option, none, some, Option-cases, Bool-cases, inl, inr, arith,
}
use dsoftbus_go.Base.Int.{ℤ, int_eq, int_beq_iff}
use dsoftbus_go.Base.Table.{lookup, lookup-insert}
use dsoftbus_go.Base.Text.{Bytes}
use dsoftbus_go.Types.{AuthConnInfo}
use dsoftbus_go.AuthSession.{
  AuthSession, AuthSessionManager, SessionWorld, GroupAuthCall, GroupAuthAnswers, SessionOutcome,
  AuthSessionState, init_state, auth_device_called, process_data_called, auth_session_init,
  put_session, with_state, is_waiting, start_hichain_auth, start_state_machine, start_if_waiting,
  process_after, add_session, new_auth_session, auth_session_start_auth,
  auth_session_process_dev_id_data, auth_session_process_auth_data, auth_session_handle_auth_finish,
  auth_session_handle_auth_error, generate_auth_seq, on_finish, on_error, set_state,
  new_auth_session_manager, device_auth, sync_device_id, auth_failed, auth_done,
}
use dsoftbus_go.SessionContext.{Contexts}
use dsoftbus_go.AuthSession.Steps.{SessionStep, SessionRun}
use dsoftbus_go.AuthSession.Agreement.{Agrees, found, run-Agrees, empty-Agrees}

-- How often AuthDevice is called for a session.
abbrev pub starts : ℤ → List GroupAuthCall → ℕ
starts q [] = 0
starts q (auth_device_called p ∷ cs) = (if p == q then 1 else 0) + starts q cs
starts q (process_data_called p bytes ∷ cs) = starts q cs

starts-append :
    (q : ℤ) (cs ds : List GroupAuthCall) → starts q (cs ++ ds) ≡ starts q cs + starts q ds
starts-append q [] ds = omega arith
starts-append q (auth_device_called p ∷ cs) ds = omega (arith, starts-append q cs ds)
starts-append q (process_data_called p bytes ∷ cs) ds = starts-append q cs ds

abbrev not_started : AuthSessionState → Bool
not_started init_state = true
not_started sync_device_id = true
not_started _ = false

abbrev active_as : Option AuthSession → ℕ
active_as none = 0
active_as (some s) = if not_started s.state then 0 else 1

-- 1 for a session that is there and is past the two states before HiChain.
abbrev active : ℤ → AuthSessionManager → ℕ
active q m = active_as (lookup q m.sessions)

put-active :
    (q : ℤ) (w : SessionWorld) (s : AuthSession)
    → active q (put_session w s).manager
      ≡ (if s.auth_seq == q then active_as (some s) else active q w.manager)
put-active q w s = ground (arith, lookup-insert s.auth_seq q s w.manager.sessions)

-- A new session is not active yet.
added :
    (q : ℤ) (w : SessionWorld) (s : AuthSession)
    → active s.auth_seq w.manager ≡ 0
    → not_started s.state ≡ true
    → active q (add_session w s).manager ≡ active q w.manager
added q w s z e = elim (Bool-cases (s.auth_seq == q)) [
  | inr d ↦ ground (arith, lookup-insert s.auth_seq q s w.manager.sessions)
  | inl d ↦
      let z' : active q w.manager ≡ 0 =
        subst (λ (p : ℤ). active p w.manager ≡ 0) ((int_beq_iff _ _).0 d) z in
      ground (arith, lookup-insert s.auth_seq q s w.manager.sessions)
]

module _ (q : ℤ) where
  -- An operation that calls AuthDevice for `q` no more often than it makes `q` active.
  abbrev Grows : SessionWorld → SessionOutcome → Type 0
  Grows w o = starts q o.1 + active q w.manager ≤ active q o.0.manager

  -- A session is stored that was not active before.
  stored :
      (w : SessionWorld) (s : AuthSession) (n : ℕ)
      → active s.auth_seq w.manager ≡ 0
      → n ≤ (if s.auth_seq == q then active_as (some s) else 0)
      → n + active q w.manager ≤ active q (put_session w s).manager
  stored w s n z l = elim (Bool-cases (s.auth_seq == q)) [
    | inr d ↦ ground (arith, put-active q w s)
    | inl d ↦
        let z' : active q w.manager ≡ 0 =
          subst (λ (p : ℤ). active p w.manager ≡ 0) ((int_beq_iff _ _).0 d) z in
        ground (arith, put-active q w s)
  ]

  -- HiChain starts for a session that was not active.
  hichain-active :
      (a : GroupAuthAnswers) (w : SessionWorld) (s : AuthSession)
      → not_started s.state ≡ false
      → active s.auth_seq w.manager ≡ 0
      → Grows w (start_hichain_auth a w s)
  unfolding start_hichain_auth
  hichain-active a w s e z = elim (Option-cases a.local_udid) [
    | inl u ↦ rw u (stored w (with_state s auth_failed) 0 z (omega arith))
    | inr (udid, u) ↦ elim (Bool-cases a.has_instance) [
      | inr i ↦ rw (u, i) (stored w (with_state s auth_failed) 0 z (omega arith))
      | inl i ↦ elim (Bool-cases a.auth_device_ok) [
        | inr d ↦ rw (u, i, d) (stored w (with_state s auth_failed) _ z (ground arith))
        | inl d ↦ rw (u, i, d) (stored w s _ z (ground arith))
      ]
    ]
  ]

  machine-active :
      (a : GroupAuthAnswers) (w : SessionWorld) (s : AuthSession)
      → active s.auth_seq w.manager ≡ 0
      → Grows w (start_state_machine a w s)
  unfolding start_state_machine
  machine-active a w s z = elim (Bool-cases s.is_server) [
    | inl e ↦
        let waits : start_state_machine a w s
            ≡ (put_session w (with_state s sync_device_id), [], none) =
          ground arith in
        subst (Grows w) (sym waits) (stored w (with_state s sync_device_id) 0 z (omega arith))
    | inr e ↦
        let goes_on : start_state_machine a w s
            ≡ start_hichain_auth a w (with_state s device_auth) =
          ground arith in
        subst (Grows w) (sym goes_on) (hichain-active a w (with_state s device_auth) refl z)
  ]

  waiting-active :
      (a : GroupAuthAnswers) (w : SessionWorld) (s : AuthSession)
      → lookup s.auth_seq w.manager.sessions ≡ some s
      → Grows w (start_if_waiting a w s)
  unfolding start_if_waiting
  waiting-active a w s l = elim (Bool-cases (s.is_server && is_waiting s.state)) [
    | inr e ↦
        let nothing : start_if_waiting a w s ≡ (w, [], none) = ground arith in
        subst (Grows w) (sym nothing) (omega arith)
    | inl e ↦
        let z : active s.auth_seq w.manager ≡ 0 = ground arith in
        let goes_on : start_if_waiting a w s ≡ start_hichain_auth a w (with_state s device_auth) =
          ground arith in
        subst (Grows w) (sym goes_on) (hichain-active a w (with_state s device_auth) refl z)
  ]

  start-active :
      (a : GroupAuthAnswers) (w : SessionWorld) (auth_seq : ℤ) (request_id conn_id : ℕ)
      (info : Option AuthConnInfo) (is_server : Bool) (now : ℕ)
      → Grows w (auth_session_start_auth a w auth_seq request_id conn_id info is_server now)
  unfolding auth_session_start_auth
  start-active a w auth_seq request_id conn_id info is_server now =
      elim (Bool-cases w.manager.initialized) [
        | inr e ↦ rw e (omega arith)
        | inl e ↦ elim (Option-cases (lookup auth_seq w.manager.sessions)) [
          | inr (s, e') ↦ rw (e, e') (omega arith)
          | inl e' ↦
              let s = new_auth_session auth_seq request_id conn_id info is_server now in
              let w1 = add_session w s in
              let run : auth_session_start_auth a w auth_seq request_id conn_id info is_server now
                  ≡ start_state_machine a w1 s =
                ground arith in
              let fresh : active auth_seq w.manager ≡ 0 = ground arith in
              let put : active q w1.manager ≡ active q w.manager = added q w s fresh refl in
              let put' : active auth_seq w1.manager ≡ 0 = added auth_seq w s fresh refl ∙ fresh in
              let grown : Grows w1 (start_state_machine a w1 s) = machine-active a w1 s put' in
              subst (Grows w) (sym run) (omega (arith, put, grown))
        ]
      ]

  -- What is done after HiChain was started, or not, starts nothing.
  process-Grows :
      (a : GroupAuthAnswers) (w : SessionWorld) (auth_seq : ℤ) (payload : Bytes)
      (o : SessionOutcome)
      → Grows w o
      → Grows w (process_after a auth_seq payload o)
  process-Grows a w auth_seq payload (w', calls, some e) g = g
  process-Grows a w auth_seq payload (w', calls, none) g = elim (Bool-cases a.has_instance) [
    | inr e ↦ rw e g
    | inl e ↦
        rw e (omega (arith, g, starts-append q calls (process_data_called auth_seq payload ∷ [])))
  ]

  active-le : (o : Option AuthSession) → active_as o ≤ 1
  active-le none = omega arith
  active-le (some s) = ground arith

  put-Grows :
      (w : SessionWorld) (s : AuthSession)
      → not_started s.state ≡ false
      → active q w.manager ≤ active q (put_session w s).manager
  put-Grows w s e = ground (arith, put-active q w s, active-le (lookup q w.manager.sessions))

  -- A session is overwritten in the same state.
  same-Grows :
      (w : SessionWorld) (s s' : AuthSession)
      → lookup s.auth_seq w.manager.sessions ≡ some s
      → s.auth_seq ≡ s'.auth_seq
      → s.state ≡ s'.state
      → 0 + active q w.manager ≤ active q (put_session w s').manager
  same-Grows w s s' e k st =
      let e' : active s'.auth_seq w.manager ≡ active_as (some s') =
        ap (λ (p : ℤ). active p w.manager) (sym k) ∙ (rw (e, st) refl) in
      elim (Bool-cases (s'.auth_seq == q)) [
        | inr d ↦ ground (arith, put-active q w s')
        | inl d ↦
            let z' : active q w.manager ≡ active_as (some s') =
              subst (λ (p : ℤ). active p w.manager ≡ active_as (some s')) ((int_beq_iff _ _).0 d)
                e' in
            ground (arith, put-active q w s')
      ]

  set-Grows :
      (w : SessionWorld) (auth_seq : ℤ) (st : AuthSessionState)
      → not_started st ≡ false
      → active q w.manager ≤ active q (set_state w auth_seq st).0.manager
  set-Grows w auth_seq st e = elim (Option-cases (lookup auth_seq w.manager.sessions)) [
    | inl e' ↦ rw (e', set_state) (omega arith)
    | inr (s, e') ↦ rw (e', set_state) (put-Grows w (with_state s st) e)
  ]

  dev_id-Grows :
      (a : GroupAuthAnswers) (w : SessionWorld) (auth_seq : ℤ) (payload : Bytes)
      → Agrees w.manager
      → Grows w (auth_session_process_dev_id_data a w auth_seq payload)
  unfolding auth_session_process_dev_id_data
  dev_id-Grows a w auth_seq payload v = elim (Option-cases (lookup auth_seq w.manager.sessions)) [
    | inl e ↦ rw (e, auth_session_process_dev_id_data) (omega arith)
    | inr (s, e) ↦
        rw (e, auth_session_process_dev_id_data) (waiting-active a w s (found w auth_seq s v e))
  ]

  auth-Grows :
      (a : GroupAuthAnswers) (w : SessionWorld) (auth_seq : ℤ) (payload : Bytes)
      → Agrees w.manager
      → Grows w (auth_session_process_auth_data a w auth_seq payload)
  unfolding auth_session_process_auth_data
  auth-Grows a w auth_seq payload v = elim (Option-cases (lookup auth_seq w.manager.sessions)) [
    | inl e ↦ rw (e, auth_session_process_auth_data) (omega arith)
    | inr (s, e) ↦
        rw (e, auth_session_process_auth_data)
          (process-Grows a w auth_seq payload (start_if_waiting a w s)
            (waiting-active a w s (found w auth_seq s v e)))
  ]

  step-Grows :
      {w w' : SessionWorld} {calls : List GroupAuthCall}
      → SessionStep w calls w'
      → Agrees w.manager
      → starts q calls + active q w.manager ≤ active q w'.manager
  unfolding auth_session_init generate_auth_seq auth_session_handle_auth_finish
      auth_session_handle_auth_error on_finish on_error
  step-Grows (SessionStep.initialised w) v = omega arith
  step-Grows (SessionStep.sequence_taken w) v = omega arith
  step-Grows (SessionStep.started a w p r c i b n) v = start-active a w p r c i b n
  step-Grows (SessionStep.dev_id_processed a w p d) v = dev_id-Grows a w p d v
  step-Grows (SessionStep.auth_processed a w p d) v = auth-Grows a w p d v
  step-Grows (SessionStep.finish_handled w p) v = omega (arith, set-Grows w p auth_done refl)
  step-Grows (SessionStep.error_handled w p) v = omega (arith, set-Grows w p auth_failed refl)
  step-Grows (SessionStep.finished c w s e) v =
      omega (arith, put-Grows w (with_state s auth_done) refl)
  step-Grows (SessionStep.reported_error c w s e) v =
      omega (arith, put-Grows w (with_state s auth_failed) refl)
  step-Grows (SessionStep.manager_set w s id e) v =
      same-Grows w s (record s { auth_manager = some id }) e refl refl

  run-Grows :
      {w w' : SessionWorld} {calls : List GroupAuthCall}
      → SessionRun w calls w'
      → Agrees w.manager
      → starts q calls + active q w.manager ≤ active q w'.manager
  run-Grows (SessionRun.here w) v = omega arith
  run-Grows (SessionRun.then_step {calls = cs} {more = ds} r st) v =
      omega (arith, starts-append q cs ds, run-Grows r v, step-Grows st (run-Agrees r v))

  -- From the first state on, whatever is started, received, finished or failed in whatever order, and
  -- whether or not HiChain can be started: AuthDevice is called at most once for each session, so no
  -- session begins a second exchange of keys. Only a deinitialisation forgets the sessions.
  pub hichain_started_once :
      {w : SessionWorld} {contexts : Contexts} {calls : List GroupAuthCall}
      → SessionRun (record { manager = new_auth_session_manager; contexts = contexts }) calls w
      → starts q calls ≤ 1
  unfolding lookup
  hichain_started_once {w = w} r = omega (
    arith,
    run-Grows r (empty-Agrees new_auth_session_manager refl refl),
    active-le (lookup q w.manager.sessions),
  )
