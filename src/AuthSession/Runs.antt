-- ===== src/AuthSession/Runs.antt =====
-- Runs of the sessions of auth_session.go.
use dsoftbus_go.Base.{nat_eq, ◌≤◌, true, [], ◌∷◌, none, some}
use dsoftbus_go.Base.Int.{pos, int_eq}
use dsoftbus_go.Base.Table.{lookup, insert}
use dsoftbus_go.AuthSession.{
  SessionWorld, GroupAuthAnswers, new_auth_session_manager, auth_session_init,
  auth_session_start_auth, auth_session_process_auth_data, auth_device_called, process_data_called,
  start_state_machine, start_hichain_auth, start_if_waiting,
}
use dsoftbus_go.AuthSession.Steps.{SessionStep, SessionRun, with_manager}
use dsoftbus_go.AuthSession.Once.{starts, hichain_started_once}

abbrev ready : GroupAuthAnswers
ready = record {
  local_udid = some (117 ∷ []);
  has_instance = true;
  auth_device_ok = true;
  process_data_ok = true;
}

abbrev first : SessionWorld
first = record { manager = new_auth_session_manager; contexts = [] }

abbrev initialised : SessionWorld
initialised = with_manager first (auth_session_init first.manager)

-- A server's session, and the state after two packets for it.
abbrev serving : SessionWorld
serving = (auth_session_start_auth ready initialised (pos 1) 0 7 none true 5).0

abbrev served : SessionWorld
served = (auth_session_process_auth_data ready serving (pos 1) (9 ∷ [])).0

abbrev served_twice : SessionWorld
served_twice = (auth_session_process_auth_data ready served (pos 1) (8 ∷ [])).0

serving_run : SessionRun first [] serving
unfolding auth_session_init auth_session_start_auth start_state_machine lookup insert
serving_run =
    SessionRun.then_step
      (SessionRun.then_step (SessionRun.here first) (SessionStep.initialised first))
      (SessionStep.started ready initialised (pos 1) 0 7 none true 5)

-- HiChain starts with the first packet only.
served_run :
    SessionRun first
      (auth_device_called (pos 1)
        ∷ process_data_called (pos 1) (9 ∷ [])
        ∷ process_data_called (pos 1) (8 ∷ [])
        ∷ [])
      served_twice
unfolding auth_session_init auth_session_start_auth start_state_machine lookup insert
    auth_session_process_auth_data start_if_waiting start_hichain_auth
served_run =
    SessionRun.then_step
      (SessionRun.then_step serving_run (SessionStep.auth_processed ready serving (pos 1) (9 ∷ [])))
      (SessionStep.auth_processed ready served (pos 1) (8 ∷ []))

hichain_started_once_example :
    starts (pos 1) (
      auth_device_called (pos 1)
      ∷ process_data_called (pos 1) (9 ∷ [])
      ∷ process_data_called (pos 1) (8 ∷ [])
      ∷ [])
    ≤ 1
hichain_started_once_example = hichain_started_once (pos 1) served_run
