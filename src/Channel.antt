-- ===== src/Channel.antt =====
-- pkg/authentication/auth_channel.go: the registry of channel listeners. A listener is a pointer to
-- two callbacks: its identity, and which of the callbacks are set. A call of a callback is an event.
pub mod Laws
pub mod Runs
use dsoftbus_go.Base.{
  ℕ, ◌==◌, if◌then◌else◌, Bool, true, false, List, [], ◌∷◌, ◌++◌, Option, none, some, Result, ok,
  err,
}
use dsoftbus_go.Base.Int.{ℤ, int_eq}
use dsoftbus_go.Types.{SocketPktHead, AuthChannelData, module_auth_channel, module_auth_msg}

pub record AuthChannelListener : Type 0 where
  pub identity : ℕ
  pub on_data_received : Bool
  pub on_disconnected : Bool

pub record InnerChannelListener : Type 0 where
  pub module_id : ℤ
  pub listener : Option AuthChannelListener

abbrev pub Registry : Type 0
Registry = List InnerChannelListener

pub data ChannelError : Type 0 where
  listener_nil callback_nil : ChannelError

pub data ChannelEvent : Type 0 where
  data_received : AuthChannelListener → ℤ → AuthChannelData → ChannelEvent
  channel_disconnected : AuthChannelListener → ℤ → ChannelEvent

-- What the package's `init` sets up.
abbrev pub initial_listeners : Registry
initial_listeners =
    record { module_id = module_auth_channel; listener = none }
    ∷ record { module_id = module_auth_msg; listener = none }
    ∷ []

-- The loop over the list: the first entry of the module is overwritten, or an entry is added.
unfoldable pub set_listener : ℤ → AuthChannelListener → Registry → Registry
set_listener m l [] = record { module_id = m; listener = some l } ∷ []
set_listener m l (x ∷ r) =
    if x.module_id == m then record x { listener = some l } ∷ r else x ∷ set_listener m l r

unfoldable pub reg_auth_channel_listener :
    ℤ → Option AuthChannelListener → Registry → Result ChannelError Registry
reg_auth_channel_listener m none r = err listener_nil
reg_auth_channel_listener m (some l) r =
    if l.on_data_received then ok (set_listener m l r) else err callback_nil

unfoldable pub unreg_auth_channel_listener : ℤ → Registry → Registry
unreg_auth_channel_listener m [] = []
unreg_auth_channel_listener m (x ∷ r) =
    if x.module_id == m
    then record x { listener = none } ∷ r
    else x ∷ unreg_auth_channel_listener m r

unfoldable pub find_listener : ℤ → Registry → Option AuthChannelListener
find_listener m [] = none
find_listener m (x ∷ r) = if x.module_id == m then x.listener else find_listener m r

unfoldable pub notify_channel_data_received :
    ℤ → SocketPktHead → List ℕ → Registry → List ChannelEvent
notify_channel_data_received channel_id head body r = elim (find_listener head.module_id r) [
  | none ↦ []
  | some l ↦
      if l.on_data_received
      then data_received l channel_id (record {
        module_id = head.module_id;
        seq = head.seq;
        flag = head.flag;
        len = head.len;
        payload = some body;
      })
        ∷ []
      else []
]

abbrev pub disconnect_event : Option AuthChannelListener → ℤ → List ChannelEvent
disconnect_event none channel_id = []
disconnect_event (some l) channel_id =
    if l.on_disconnected then channel_disconnected l channel_id ∷ [] else []

unfoldable pub notify_channel_disconnected : ℤ → Registry → List ChannelEvent
notify_channel_disconnected channel_id [] = []
notify_channel_disconnected channel_id (x ∷ r) =
    disconnect_event x.listener channel_id ++ notify_channel_disconnected channel_id r
