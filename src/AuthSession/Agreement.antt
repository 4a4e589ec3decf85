-- ===== src/AuthSession/Agreement.antt =====
-- The two tables of auth_session.go agree.
use dsoftbus_go.Base.{
  ℕ, nat_eq, nat_beq_iff, ◌≡◌, refl, sym, ◌∙◌, subst, ◌==◌, ◌&&◌, Bool, List, [], Option, none,
  some, ok, Option-cases, Bool-cases, inl, inr, arith,
}
use dsoftbus_go.Base.Int.{ℤ, int_eq, int_beq_iff}
use dsoftbus_go.Base.Table.{Table, lookup, insert, lookup-insert}
use dsoftbus_go.Base.Text.{Bytes}
use dsoftbus_go.Types.{AuthConnInfo}
use dsoftbus_go.AuthSession.{
  AuthSession, AuthSessionManager, AuthSessionState, SessionWorld, GroupAuthCall, GroupAuthAnswers,
  SessionOutcome, auth_session_init, put_session, with_state, is_waiting, start_hichain_auth,
  start_state_machine, start_if_waiting, process_after, add_session, new_auth_session, set_state,
  auth_session_start_auth, auth_session_process_dev_id_data, auth_session_process_auth_data,
  auth_session_handle_auth_finish, auth_session_handle_auth_error, generate_auth_seq, on_finish,
  on_error, device_auth, sync_device_id, auth_failed, auth_done, get_auth_session_by_conn_id,
  new_auth_session_manager,
}
use dsoftbus_go.SessionContext.{Contexts}
use dsoftbus_go.AuthSession.Steps.{SessionStep, SessionRun}

-- A session stands under its number, and a connection's number leads to a session of that connection.
pub record Agrees (m : AuthSessionManager) : Type 0 where
  pub keyed : (q : ℤ) (s : AuthSession) → lookup q m.sessions ≡ some s → s.auth_seq ≡ q
  pub indexed :
      (c : ℕ) (q : ℤ)
      → lookup c m.conn_id_to_seq ≡ some q
      → (s : AuthSession) × (lookup q m.sessions ≡ some s) × (s.conn_id ≡ c)

put-keyed :
    (t : Table ℤ AuthSession) (s : AuthSession)
    → ((q : ℤ) (x : AuthSession) → lookup q t ≡ some x → x.auth_seq ≡ q)
    → (q : ℤ) (x : AuthSession) → lookup q (insert s.auth_seq s t) ≡ some x
    → x.auth_seq ≡ q
put-keyed t s k q x e =
    ground (arith, lookup-insert s.auth_seq q s t, int_beq_iff s.auth_seq q, k q x)

-- A session that is there is overwritten with one of the same connection.
pub put-Agrees :
    (w : SessionWorld) (s old : AuthSession)
    → Agrees w.manager
    → lookup s.auth_seq w.manager.sessions ≡ some old
    → old.conn_id ≡ s.conn_id
    → Agrees (put_session w s).manager
put-Agrees w s old v e same = record {
  keyed = put-keyed w.manager.sessions s v.keyed;
  indexed = λ c q l.
      let (x, ex, cx) = v.indexed c q l in
      elim (Bool-cases (s.auth_seq == q)) [
        | inr d ↦ (x, lookup-insert s.auth_seq q s w.manager.sessions ∙ rw d ex, cx)
        | inl d ↦ (
          s,
          lookup-insert s.auth_seq q s w.manager.sessions ∙ rw d refl,
          let same_key = (int_beq_iff s.auth_seq q).0 d in cc,
        )
      ];
}

added_at :
    (w : SessionWorld) (s : AuthSession)
    → Agrees w.manager
    → lookup s.auth_seq w.manager.sessions ≡ none
    → (c : ℕ) (q : ℤ) → lookup c (add_session w s).manager.conn_id_to_seq ≡ some q
    → (x : AuthSession) × (lookup q (add_session w s).manager.sessions ≡ some x) × (x.conn_id ≡ c)
added_at w s v e c q l =
    let at_c = lookup-insert s.conn_id c s.auth_seq w.manager.conn_id_to_seq in
    let at_q = lookup-insert s.auth_seq q s w.manager.sessions in
    elim (Bool-cases (s.conn_id == c)) [
      | inl d ↦
          let key : s.auth_seq ≡ q = ground arith in
          (s, at_q ∙ rw ((int_beq_iff s.auth_seq q).1 key) refl, (nat_beq_iff s.conn_id c).0 d)
      | inr d ↦
          let old : lookup c w.manager.conn_id_to_seq ≡ some q = ground arith in
          let (x, ex, cx) = v.indexed c q old in
          elim (Bool-cases (s.auth_seq == q)) [
            | inr d' ↦ (x, at_q ∙ rw d' ex, cx)
            | inl d' ↦ let same_key = (int_beq_iff s.auth_seq q).0 d' in absurd (ground arith)
          ]
    ]

-- A session is added under a number that is free.
pub add-Agrees :
    (w : SessionWorld) (s : AuthSession)
    → Agrees w.manager
    → lookup s.auth_seq w.manager.sessions ≡ none
    → Agrees (add_session w s).manager
add-Agrees w s v e = record {
  keyed = put-keyed w.manager.sessions s v.keyed;
  indexed = λ c q l. added_at w s v e c q l;
}

hichain-Agrees :
    (a : GroupAuthAnswers) (w : SessionWorld) (s old : AuthSession)
    → Agrees w.manager
    → lookup s.auth_seq w.manager.sessions ≡ some old
    → old.conn_id ≡ s.conn_id
    → Agrees (start_hichain_auth a w s).0.manager
unfolding start_hichain_auth
hichain-Agrees a w s old v e c = elim (Option-cases a.local_udid) [
  | inl u ↦ rw u (put-Agrees w (with_state s auth_failed) old v e c)
  | inr (udid, u) ↦ elim (Bool-cases a.has_instance) [
    | inr i ↦ rw (u, i) (put-Agrees w (with_state s auth_failed) old v e c)
    | inl i ↦ elim (Bool-cases a.auth_device_ok) [
      | inr d ↦ rw (u, i, d) (put-Agrees w (with_state s auth_failed) old v e c)
      | inl d ↦ rw (u, i, d) (put-Agrees w s old v e c)
    ]
  ]
]

machine-Agrees :
    (a : GroupAuthAnswers) (w : SessionWorld) (s : AuthSession)
    → Agrees w.manager
    → lookup s.auth_seq w.manager.sessions ≡ some s
    → Agrees (start_state_machine a w s).0.manager
unfolding start_state_machine
machine-Agrees a w s v e = elim (Bool-cases s.is_server) [
  | inl b ↦
      let waits : (start_state_machine a w s).0 ≡ put_session w (with_state s sync_device_id) =
        ground arith in
      subst (λ (x : SessionWorld). Agrees x.manager) (sym waits)
        (put-Agrees w (with_state s sync_device_id) s v e refl)
  | inr b ↦
      let goes_on : start_state_machine a w s ≡ start_hichain_auth a w (with_state s device_auth) =
        ground arith in
      subst (λ (x : SessionOutcome). Agrees x.0.manager) (sym goes_on)
        (hichain-Agrees a w (with_state s device_auth) s v e refl)
]

start-Agrees :
    (a : GroupAuthAnswers) (w : SessionWorld) (auth_seq : ℤ) (request_id conn_id : ℕ)
    (info : Option AuthConnInfo) (is_server : Bool) (now : ℕ)
    → Agrees w.manager
    → Agrees (auth_session_start_auth a w auth_seq request_id conn_id info is_server now).0.manager
unfolding auth_session_start_auth
start-Agrees a w auth_seq request_id conn_id info is_server now v =
    elim (Bool-cases w.manager.initialized) [
      | inr e ↦
          let same : (auth_session_start_auth a w auth_seq request_id conn_id info is_server now).0
              ≡ w =
            ground arith in
          subst (λ (x : SessionWorld). Agrees x.manager) (sym same) v
      | inl e ↦ elim (Option-cases (lookup auth_seq w.manager.sessions)) [
        | inr (s, e') ↦
            let same : (auth_session_start_auth a w auth_seq request_id conn_id info is_server
                  now).0
                ≡ w =
              ground arith in
            subst (λ (x : SessionWorld). Agrees x.manager) (sym same) v
        | inl e' ↦
            let s = new_auth_session auth_seq request_id conn_id info is_server now in
            let run : auth_session_start_auth a w auth_seq request_id conn_id info is_server now
                ≡ start_state_machine a (add_session w s) s =
              ground arith in
            let there : lookup auth_seq (add_session w s).manager.sessions ≡ some s =
              lookup-insert auth_seq auth_seq s w.manager.sessions
              ∙ rw ((int_beq_iff auth_seq auth_seq).1 refl) refl in
            subst (λ (x : SessionOutcome). Agrees x.0.manager) (sym run)
              (machine-Agrees a (add_session w s) s (add-Agrees w s v e') there)
      ]
    ]

-- A session that the table has under the number it was looked up with.
pub found :
    (w : SessionWorld) (q : ℤ) (s : AuthSession)
    → Agrees w.manager
    → lookup q w.manager.sessions ≡ some s
    → lookup s.auth_seq w.manager.sessions ≡ some s
found w q s v e = subst (λ (k : ℤ). lookup k w.manager.sessions ≡ some s) (sym (v.keyed q s e)) e

waiting-Agrees :
    (a : GroupAuthAnswers) (w : SessionWorld) (q : ℤ) (s : AuthSession)
    → Agrees w.manager
    → lookup q w.manager.sessions ≡ some s
    → Agrees (start_if_waiting a w s).0.manager
unfolding start_if_waiting
waiting-Agrees a w q s v e = elim (Bool-cases (s.is_server && is_waiting s.state)) [
  | inr d ↦
      let nothing : start_if_waiting a w s ≡ (w, [], none) = ground arith in
      subst (λ (x : SessionOutcome). Agrees x.0.manager) (sym nothing) v
  | inl d ↦
      let goes_on : start_if_waiting a w s ≡ start_hichain_auth a w (with_state s device_auth) =
        ground arith in
      subst (λ (x : SessionOutcome). Agrees x.0.manager) (sym goes_on)
        (hichain-Agrees a w (with_state s device_auth) s v (found w q s v e) refl)
]

dev_id-Agrees :
    (a : GroupAuthAnswers) (w : SessionWorld) (q : ℤ) (payload : Bytes)
    → Agrees w.manager
    → Agrees (auth_session_process_dev_id_data a w q payload).0.manager
unfolding auth_session_process_dev_id_data
dev_id-Agrees a w q payload v = elim (Option-cases (lookup q w.manager.sessions)) [
  | inl e ↦ rw (e, auth_session_process_dev_id_data) v
  | inr (s, e) ↦ rw (e, auth_session_process_dev_id_data) (waiting-Agrees a w q s v e)
]

pub process_after-same :
    (a : GroupAuthAnswers) (q : ℤ) (payload : Bytes) (o : SessionOutcome)
    → (process_after a q payload o).0 ≡ o.0
process_after-same a q payload (w, calls, some e) = refl
process_after-same a q payload (w, calls, none) = elim (Bool-cases a.has_instance) [
  | inr e ↦ rw e refl
  | inl e ↦ rw e refl
]

auth-Agrees :
    (a : GroupAuthAnswers) (w : SessionWorld) (q : ℤ) (payload : Bytes)
    → Agrees w.manager
    → Agrees (auth_session_process_auth_data a w q payload).0.manager
unfolding auth_session_process_auth_data
auth-Agrees a w q payload v = elim (Option-cases (lookup q w.manager.sessions)) [
  | inl e ↦ rw (e, auth_session_process_auth_data) v
  | inr (s, e) ↦
      rw (e, auth_session_process_auth_data)
        (subst (λ (x : SessionWorld). Agrees x.manager)
          (sym (process_after-same a q payload (start_if_waiting a w s)))
          (waiting-Agrees a w q s v e))
]

set_state-Agrees :
    (w : SessionWorld) (q : ℤ) (st : AuthSessionState)
    → Agrees w.manager
    → Agrees (set_state w q st).0.manager
set_state-Agrees w q st v = elim (Option-cases (lookup q w.manager.sessions)) [
  | inl e ↦ rw (e, set_state) v
  | inr (s, e) ↦ rw (e, set_state) (put-Agrees w (with_state s st) s v (found w q s v e) refl)
]

pub step-Agrees :
    {w w' : SessionWorld} {calls : List GroupAuthCall}
    → SessionStep w calls w'
    → Agrees w.manager
    → Agrees w'.manager
unfolding auth_session_init generate_auth_seq auth_session_handle_auth_finish
    auth_session_handle_auth_error on_finish on_error
step-Agrees (SessionStep.initialised w) v = record { keyed = v.keyed; indexed = v.indexed }
step-Agrees (SessionStep.sequence_taken w) v = record { keyed = v.keyed; indexed = v.indexed }
step-Agrees (SessionStep.started a w q r c i b n) v = start-Agrees a w q r c i b n v
step-Agrees (SessionStep.dev_id_processed a w q p) v = dev_id-Agrees a w q p v
step-Agrees (SessionStep.auth_processed a w q p) v = auth-Agrees a w q p v
step-Agrees (SessionStep.finish_handled w q) v = set_state-Agrees w q auth_done v
step-Agrees (SessionStep.error_handled w q) v = set_state-Agrees w q auth_failed v
step-Agrees (SessionStep.finished c w s e) v = put-Agrees w (with_state s auth_done) s v e refl
step-Agrees (SessionStep.reported_error c w s e) v =
    put-Agrees w (with_state s auth_failed) s v e refl
step-Agrees (SessionStep.manager_set w s id e) v =
    put-Agrees w (record s { auth_manager = some id }) s v e refl

pub run-Agrees :
    {w w' : SessionWorld} {calls : List GroupAuthCall}
    → SessionRun w calls w'
    → Agrees w.manager
    → Agrees w'.manager
run-Agrees (SessionRun.here w) v = v
run-Agrees (SessionRun.then_step r st) v = step-Agrees st (run-Agrees r v)

pub empty-Agrees : (m : AuthSessionManager) → m.sessions ≡ [] → m.conn_id_to_seq ≡ [] → Agrees m
unfolding lookup
empty-Agrees m e e' = record {
  keyed = λ q s l. absurd (ground arith);
  indexed = λ c q l. absurd (ground arith);
}

-- From the first state on, whatever happened since: a connection that has a session number leads
-- GetAuthSessionByConnId to a session, which is of that connection and has that number. Its second error is
-- never returned.
pub indexed_session_is_found :
    {w : SessionWorld} {contexts : Contexts} {calls : List GroupAuthCall} (c : ℕ) (q : ℤ)
    → SessionRun (record { manager = new_auth_session_manager; contexts = contexts }) calls w
    → lookup c w.manager.conn_id_to_seq ≡ some q
    → (s : AuthSession) × (get_auth_session_by_conn_id w.manager c ≡ ok s)
      × (s.conn_id ≡ c)
      × (s.auth_seq ≡ q)
unfolding get_auth_session_by_conn_id
indexed_session_is_found {w = w} c q r e =
    let v = run-Agrees r (empty-Agrees new_auth_session_manager refl refl) in
    let (s, es, cs) = v.indexed c q e in
    (s, rw (e, es, get_auth_session_by_conn_id) refl, cs, v.keyed q s es)
