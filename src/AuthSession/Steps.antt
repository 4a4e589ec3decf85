-- ===== src/AuthSession/Steps.antt =====
-- The operations on the sessions of auth_session.go as steps, with the calls of group authentication.
use dsoftbus_go.Base.{ℕ, nat_eq, ◌≡◌, Bool, List, [], ◌++◌, Option, some}
use dsoftbus_go.Base.Int.{ℤ, int_eq}
use dsoftbus_go.Base.Table.{lookup}
use dsoftbus_go.Base.Text.{Bytes}
use dsoftbus_go.Types.{AuthConnInfo}
use dsoftbus_go.AuthSession.{
  AuthSession, AuthSessionManager, SessionWorld, GroupAuthCall, GroupAuthAnswers, ResultCallbacks,
  auth_session_init, put_session, auth_session_start_auth, auth_session_process_dev_id_data,
  auth_session_process_auth_data, auth_session_handle_auth_finish, auth_session_handle_auth_error,
  generate_auth_seq, on_finish, on_error,
}

abbrev pub with_manager : SessionWorld → AuthSessionManager → SessionWorld
with_manager w m = record w { manager = m }

-- Everything but the deinitialisation. The callbacks and the upper layer, which sets the AuthManager, have
-- the session as the table has it.
pub data SessionStep : SessionWorld → List GroupAuthCall → SessionWorld → Type 0 where
  initialised : (w : SessionWorld) → SessionStep w [] (with_manager w (auth_session_init w.manager))
  sequence_taken :
      (w : SessionWorld) → SessionStep w [] (with_manager w (generate_auth_seq w.manager).0)
  started :
      (a : GroupAuthAnswers) (w : SessionWorld) (auth_seq : ℤ) (request_id conn_id : ℕ)
      (info : Option AuthConnInfo) (is_server : Bool) (now : ℕ)
      → SessionStep w
          (auth_session_start_auth a w auth_seq request_id conn_id info is_server now).1
          (auth_session_start_auth a w auth_seq request_id conn_id info is_server now).0
  dev_id_processed :
      (a : GroupAuthAnswers) (w : SessionWorld) (auth_seq : ℤ) (payload : Bytes)
      → SessionStep w
          (auth_session_process_dev_id_data a w auth_seq payload).1
          (auth_session_process_dev_id_data a w auth_seq payload).0
  auth_processed :
      (a : GroupAuthAnswers) (w : SessionWorld) (auth_seq : ℤ) (payload : Bytes)
      → SessionStep w
          (auth_session_process_auth_data a w auth_seq payload).1
          (auth_session_process_auth_data a w auth_seq payload).0
  finish_handled :
      (w : SessionWorld) (auth_seq : ℤ)
      → SessionStep w [] (auth_session_handle_auth_finish w auth_seq).0
  error_handled :
      (w : SessionWorld) (auth_seq : ℤ)
      → SessionStep w [] (auth_session_handle_auth_error w auth_seq).0
  finished :
      (c : Option ResultCallbacks) (w : SessionWorld) (s : AuthSession)
      → lookup s.auth_seq w.manager.sessions ≡ some s
      → SessionStep w [] (on_finish c w s).0
  reported_error :
      (c : Option ResultCallbacks) (w : SessionWorld) (s : AuthSession)
      → lookup s.auth_seq w.manager.sessions ≡ some s
      → SessionStep w [] (on_error c w s).0
  manager_set :
      (w : SessionWorld) (s : AuthSession) (auth_id : ℤ)
      → lookup s.auth_seq w.manager.sessions ≡ some s
      → SessionStep w [] (put_session w (record s { auth_manager = some auth_id }))

-- Steps one after the other, with all their calls.
pub data SessionRun : SessionWorld → List GroupAuthCall → SessionWorld → Type 0 where
  here : (w : SessionWorld) → SessionRun w [] w
  then_step :
      {w w1 w2 : SessionWorld} {calls more : List GroupAuthCall}
      → SessionRun w calls w1
      → SessionStep w1 more w2
      → SessionRun w (calls ++ more) w2
