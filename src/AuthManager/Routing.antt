-- ===== src/AuthManager/Routing.antt =====
-- onAuthDataReceived of auth_manager.go at the first packet of a connection: which session it reaches.
use dsoftbus_go.Base.{
  ℕ, nat_eq, nat_beq_iff, ◌≡◌, refl, ap, ◌∙◌, ◌==◌, if◌then◌else◌, true, false, List, [], ◌∷◌, none,
  some, Bool-cases, inl, inr, arith,
}
use dsoftbus_go.Base.Int.{ℤ, int_eq, int_beq_iff}
use dsoftbus_go.Base.Text.{Bytes}
use dsoftbus_go.Base.Table.{lookup, lookup-insert}
use dsoftbus_go.Types.{AuthConnInfo, AuthDataHead, module_trust_engine, module_auth_sdk}
use dsoftbus_go.AuthSession.{
  AuthSession, SessionWorld, GroupAuthAnswers, put_session, with_state, add_session,
  new_auth_session, start_state_machine, start_hichain_auth, start_if_waiting,
  auth_session_start_auth, auth_session_process_auth_data, get_auth_session_by_conn_id,
  sync_device_id, auth_device_called, process_data_called,
}
use dsoftbus_go.AuthManager.{
  AuthManager, AuthWorld, add_one, group_auth, with_service, with_sessions, group_auth_calls,
}
use dsoftbus_go.AuthManager.Events.{
  link_session, server_manager, with_server_manager, server_started, route_data, data_for,
  deliver_to_session, on_auth_data_received,
}

-- The device knows its id, and device_auth accepts what it is called with.
pub record IsReady (a : GroupAuthAnswers) : Type 0 where
  pub udid : Bytes
  pub has_udid : a.local_udid ≡ some udid
  pub instance_there : a.has_instance ≡ true
  pub device_ok : a.auth_device_ok ≡ true
  pub process_ok : a.process_data_ok ≡ true

-- A server's session after AuthSessionStartAuth.
abbrev waiting : SessionWorld → AuthSession → SessionWorld
waiting sw s = put_session (add_session sw s) (with_state s sync_device_id)

server_start :
    (a : GroupAuthAnswers) (sw : SessionWorld) (q : ℤ) (c : ℕ) (info : AuthConnInfo) (now : ℕ)
    → sw.manager.initialized ≡ true
    → lookup q sw.manager.sessions ≡ none
    → auth_session_start_auth a sw q 0 c (some info) true now
      ≡ (waiting sw (new_auth_session q 0 c (some info) true now), [], none)
unfolding auth_session_start_auth start_state_machine
server_start a sw q c info now i n = rw (n, auth_session_start_auth) (rw i refl)

-- The session that the packet finds.
abbrev linked : AuthSession → ℤ → AuthSession
linked s id = record (with_state s sync_device_id) { auth_manager = some id }

link_waiting :
    (sw : SessionWorld) (s : AuthSession) (id : ℤ)
    → link_session (waiting sw s) s.conn_id id ≡ put_session (waiting sw s) (linked s id)
unfolding link_session get_auth_session_by_conn_id
link_waiting sw s id =
    let by_conn : lookup s.conn_id (waiting sw s).manager.conn_id_to_seq ≡ some s.auth_seq =
      lookup-insert s.conn_id s.conn_id s.auth_seq sw.manager.conn_id_to_seq
      ∙ rw ((nat_beq_iff s.conn_id s.conn_id).1 refl) refl in
    let by_seq : lookup s.auth_seq (waiting sw s).manager.sessions
        ≡ some (with_state s sync_device_id) =
      lookup-insert s.auth_seq s.auth_seq (with_state s sync_device_id)
        (add_session sw s).manager.sessions
      ∙ rw ((int_beq_iff s.auth_seq s.auth_seq).1 refl) refl in
    rw (by_conn, link_session, get_auth_session_by_conn_id) (rw by_seq refl)

-- A packet for a session that waits starts HiChain and goes to it.
processed :
    (a : GroupAuthAnswers) (sw : SessionWorld) (q : ℤ) (payload : Bytes) (s : AuthSession)
    → IsReady a
    → lookup q sw.manager.sessions ≡ some s
    → s.is_server ≡ true
    → s.state ≡ sync_device_id
    → (auth_session_process_auth_data a sw q payload).1
      ≡ auth_device_called s.auth_seq ∷ process_data_called q payload ∷ []
unfolding auth_session_process_auth_data start_if_waiting start_hichain_auth
processed a sw q payload s v l server st =
    rw (l, auth_session_process_auth_data)
      (rw (server, st, start_if_waiting)
        (rw (v.has_udid, start_hichain_auth) (rw v.instance_there (rw v.device_ok refl))))

not_processed :
    (a : GroupAuthAnswers) (sw : SessionWorld) (q : ℤ) (payload : Bytes)
    → lookup q sw.manager.sessions ≡ none
    → (auth_session_process_auth_data a sw q payload).1 ≡ []
unfolding auth_session_process_auth_data
not_processed a sw q payload l = rw (l, auth_session_process_auth_data) refl

-- HiChain data for a manager that is there goes to the session of the packet's number.
data_for_session :
    (a : GroupAuthAnswers) (w : AuthWorld) (id : ℤ) (head : AuthDataHead) (payload : List ℕ)
    (now : ℕ) (m : AuthManager)
    → lookup id w.service.managers ≡ some m
    → head.module_id ≡ module_auth_sdk
    → (data_for a w id head payload now).1
      ≡ group_auth_calls (auth_session_process_auth_data a w.sessions head.seq payload).1
unfolding data_for route_data deliver_to_session
data_for_session a w id head payload now m l e =
    let other : (head.module_id == module_trust_engine) ≡ false = ground arith in
    let same : (head.module_id == module_auth_sdk) ≡ true = ground arith in
    rw (l, data_for) (rw (other, same, route_data) refl)

module _ (a : GroupAuthAnswers) (w : AuthWorld) (c : ℕ) (info : AuthConnInfo) (head : AuthDataHead)
    (payload : List ℕ) (now : ℕ) where
  abbrev served : AuthManager
  served = server_manager w.service c info now

  abbrev fresh_session : AuthSession
  fresh_session = new_auth_session served.auth_seq 0 c (some info) true now

  -- The sessions when the packet is routed.
  abbrev routed_in : SessionWorld
  routed_in = put_session (waiting w.sessions fresh_session) (linked fresh_session served.auth_id)

  started_server :
      w.sessions.manager.initialized ≡ true
      → lookup served.auth_seq w.sessions.manager.sessions ≡ none
      → lookup c w.service.conn_id_to_auth_id ≡ none
      → head.module_id ≡ module_auth_sdk
      → (on_auth_data_received a w c info true head payload now).1
        ≡ group_auth_calls (auth_session_process_auth_data a routed_in head.seq payload).1
  unfolding on_auth_data_received server_started
  started_server i n e h =
      let same : (head.module_id == module_auth_sdk) ≡ true = ground arith in
      let stored : lookup served.auth_id (with_server_manager w.service served).managers
          ≡ some served =
        lookup-insert served.auth_id served.auth_id served w.service.managers
        ∙ rw ((int_beq_iff served.auth_id served.auth_id).1 refl) refl in
      let start = server_start a w.sessions served.auth_seq c info now i n in
      let link = link_waiting w.sessions fresh_session served.auth_id in
      rw (e, on_auth_data_received)
        (rw same (
          rw start (
            rw link (
              data_for_session a
                (with_sessions (with_service w (with_server_manager w.service served)) routed_in)
                served.auth_id head payload now served stored h))))

  found_in : lookup head.seq routed_in.manager.sessions ≡ (
      if served.auth_seq == head.seq
      then some (linked fresh_session served.auth_id)
      else lookup head.seq w.sessions.manager.sessions)
  found_in = ground (
    arith,
    lookup-insert served.auth_seq head.seq (linked fresh_session served.auth_id)
        (waiting w.sessions fresh_session).manager.sessions,
    lookup-insert served.auth_seq head.seq (with_state fresh_session sync_device_id)
        (add_session w.sessions fresh_session).manager.sessions,
    lookup-insert served.auth_seq head.seq fresh_session w.sessions.manager.sessions,
  )

  -- A server's connection sends its first packet, of module AUTH_SDK, the service's sessions are
  -- initialised, no session has the next sequence number or the packet's, and device_auth accepts its
  -- calls. Then HiChain is started and gets the packet when the packet's sequence number is the one that
  -- the service gives to the new session; otherwise nothing is called and the packet is lost.
  pub first_packet_needs_own_sequence :
      IsReady a
      → w.sessions.manager.initialized ≡ true
      → lookup c w.service.conn_id_to_auth_id ≡ none
      → head.module_id ≡ module_auth_sdk
      → lookup (add_one w.service.seq_counter) w.sessions.manager.sessions ≡ none
      → lookup head.seq w.sessions.manager.sessions ≡ none
      → (on_auth_data_received a w c info true head payload now).1 ≡ (
          if add_one w.service.seq_counter == head.seq
          then group_auth (auth_device_called (add_one w.service.seq_counter))
            ∷ group_auth (process_data_called head.seq payload)
            ∷ []
          else [])
  first_packet_needs_own_sequence v i e h n l = elim (Bool-cases (served.auth_seq == head.seq)) [
    | inl d ↦
        started_server i n e h
        ∙ ap group_auth_calls (
            processed a routed_in head.seq payload (linked fresh_session served.auth_id) v
              (found_in ∙ rw d refl) refl refl)
        ∙ rw d refl
    | inr d ↦
        started_server i n e h
        ∙ ap group_auth_calls (not_processed a routed_in head.seq payload (found_in ∙ rw d l))
        ∙ rw d refl
  ]
