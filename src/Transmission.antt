-- ===== src/Transmission.antt =====
-- pkg/transmission/trans_session_manager.go: sessions and session servers, and trans_session_service.go:
-- TransServerInit and TransServerDeinit with TransAuthInit and TransAuthDeinit (trans_auth_manager.go).
pub mod Messages
pub mod Handlers
pub mod Replies
pub mod Panics
pub mod Sessions
pub mod Runs
use dsoftbus_go.Base.{
  ℕ, ◌+◌, ◌%◌, ◌^◌, ◌==◌, nat_eq, if◌then◌else◌, Bool, true, false, List, [], ◌∷◌, length, Option,
  none, some, Result, ok, err, ◌>>=◌,
}
use dsoftbus_go.Base.Int.{ℤ, pos, ◌+ℤ◌, int32, uint32, int_eq}
use dsoftbus_go.Base.Table.{Table, lookup, insert, delete}
use dsoftbus_go.Base.Text.{Bytes, list_eq}
use dsoftbus_go.Types.{AuthChannelData, module_auth_msg, module_auth_channel, module_auth_sdk}
use dsoftbus_go.Channel.{
  AuthChannelListener, Registry, ChannelError, reg_auth_channel_listener,
  unreg_auth_channel_listener,
}
use dsoftbus_go.Fds.{ConnectionManager}
use dsoftbus_go.Post.{PostError, auth_post_channel_data}

pub record Session : Type 0 where
  pub session_id : ℤ
  pub session_name : Bytes
  pub peer_name : Bytes
  pub auth_id : ℤ
  pub channel_id : ℤ
  pub is_server : Bool

-- A server's callbacks, of which only OnShutdown is called.
pub record SessionServer : Type 0 where
  pub session_name : Bytes
  pub on_shutdown : Bool

pub record SessionManager : Type 0 where
  pub sessions : Table ℤ Session
  pub servers : Table Bytes SessionServer
  pub session_counter : ℤ

pub data TransError : Type 0 where
  server_exists session_not_found server_not_found : TransError
  send_failed : PostError → TransError

abbrev pub new_session_manager : SessionManager
new_session_manager = record { sessions = []; servers = []; session_counter = pos 1000 }

-- The listener takes the name it is created under.
unfoldable pub create_session_server :
    SessionManager → Bytes → SessionServer → Result TransError SessionManager
create_session_server m session_name listener = elim (lookup session_name m.servers) [
  | some old ↦ err server_exists
  | none ↦ ok (record m {
    servers = insert session_name (record listener { session_name = session_name }) m.servers;
  })
]

unfoldable pub remove_session_server : SessionManager → Bytes → SessionManager
remove_session_server m session_name = record m { servers = delete session_name m.servers }

-- The authentication's id serves as the channel's. The counter wraps.
unfoldable pub open_session : SessionManager → Bytes → Bytes → ℤ → SessionManager × ℤ
open_session m session_name peer_name auth_id =
    let session_id = int32 (uint32 (m.session_counter +ℤ pos 1)) in
    (
      record m {
        sessions =
            insert session_id
              (record {
                session_id = session_id;
                session_name = session_name;
                peer_name = peer_name;
                auth_id = auth_id;
                channel_id = auth_id;
                is_server = false;
              })
              m.sessions;
        session_counter = session_id;
      },
      session_id,
    )

-- Whether a server of the session's name has a callback for the end.
abbrev shuts_down : SessionManager → Session → Bool
shuts_down m s = elim (lookup s.session_name m.servers) [
  | none ↦ false
  | some server ↦ server.on_shutdown
]

-- With whether OnShutdown is called.
unfoldable pub close_session : SessionManager → ℤ → Result TransError (SessionManager × Bool)
close_session m session_id = elim (lookup session_id m.sessions) [
  | none ↦ err session_not_found
  | some s ↦ ok (record m { sessions = delete session_id m.sessions }, shuts_down m s)
]

abbrev pub session_data : ℤ → Bytes → AuthChannelData
session_data session_id bytes = record {
  module_id = module_auth_msg;
  seq = session_id;
  flag = pos 0;
  len = length bytes % 2 ^ 32;
  payload = some bytes;
}

abbrev or_send_failed : {A : Type 0} → Result PostError A → Result TransError A
or_send_failed (ok a) = ok a
or_send_failed (err e) = err (send_failed e)

module _ {C : Type 0} (is_tcp : C → Bool) where
  -- The connection that is written to, and the bytes. SendMessage is the same.
  unfoldable pub send_bytes :
      SessionManager → Option (ConnectionManager C) → ℤ → Bytes → Result TransError (C × List ℕ)
  send_bytes m sockets session_id bytes = elim (lookup session_id m.sessions) [
    | none ↦ err session_not_found
    | some s ↦
        or_send_failed (
          auth_post_channel_data is_tcp sockets s.channel_id (some (session_data session_id bytes)))
  ]

unfoldable pub get_session : SessionManager → ℤ → Result TransError Session
get_session m session_id = elim (lookup session_id m.sessions) [
  | none ↦ err session_not_found
  | some s ↦ ok s
]

unfoldable pub get_session_server : SessionManager → Bytes → Result TransError SessionServer
get_session_server m session_name = elim (lookup session_name m.servers) [
  | none ↦ err server_not_found
  | some s ↦ ok s
]

-- The three listeners are new objects each time; both callbacks are set.
abbrev pub new_listener : ℕ → AuthChannelListener
new_listener identity = record {
  identity = identity;
  on_data_received = true;
  on_disconnected = true;
}

-- The registry as it is left, and the error, if any. `n` is the first of three new identities.
unfoldable pub trans_auth_init : ℕ → Registry → Registry × Option ChannelError
trans_auth_init n r =
    elim (reg_auth_channel_listener module_auth_channel (some (new_listener n)) r) [
      | err e ↦ (r, some e)
      | ok r1 ↦ elim (reg_auth_channel_listener module_auth_msg (some (new_listener (n + 1))) r1) [
        | err e ↦ (unreg_auth_channel_listener module_auth_channel r1, some e)
        | ok r2 ↦
            elim (reg_auth_channel_listener module_auth_sdk (some (new_listener (n + 2))) r2) [
              | err e ↦ (
                unreg_auth_channel_listener module_auth_msg
                    (unreg_auth_channel_listener module_auth_channel r2),
                some e,
              )
              | ok r3 ↦ (r3, none)
            ]
      ]
    ]

unfoldable pub trans_auth_deinit : Registry → Registry
trans_auth_deinit r = unreg_auth_channel_listener module_auth_sdk (
    unreg_auth_channel_listener module_auth_msg (unreg_auth_channel_listener module_auth_channel r))

-- The flag of the service, the registry and the error.
unfoldable pub trans_server_init : ℕ → Bool → Registry → Bool × Registry × Option ChannelError
trans_server_init n true r = (true, r, none)
trans_server_init n false r =
    let (r', e) = trans_auth_init n r in
    elim e [ some x ↦ (false, r', some x) | none ↦ (true, r', none) ]

unfoldable pub trans_server_deinit : Bool → Registry → Bool × Registry
trans_server_deinit false r = (false, r)
trans_server_deinit true r = (false, trans_auth_deinit r)
