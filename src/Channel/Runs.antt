-- ===== src/Channel/Runs.antt =====
-- Concrete registries, and the theorems at concrete inputs.
use dsoftbus_go.Base.{◌≡◌, refl, some, ok, err, true, false}
use dsoftbus_go.Base.Int.{pos, int_eq}
use dsoftbus_go.Types.{SocketPktHead, magic_number}
use dsoftbus_go.Channel.{
  AuthChannelListener, Registry, initial_listeners, set_listener, reg_auth_channel_listener,
  callback_nil,
}
use dsoftbus_go.Channel.Laws.{start, registered, IsRegistry, Reachable-IsRegistry}

abbrev pub session_listener : AuthChannelListener
session_listener = record { identity = 1; on_data_received = true; on_disconnected = true }

abbrev pub with_session : Registry
with_session = set_listener (pos 8) session_listener initial_listeners

pub with_session_registered :
    reg_auth_channel_listener (pos 8) (some session_listener) initial_listeners ≡ ok with_session
unfolding reg_auth_channel_listener
with_session_registered = refl

abbrev deaf : AuthChannelListener
deaf = record { identity = 2; on_data_received = false; on_disconnected = true }

deaf_refused : reg_auth_channel_listener (pos 8) (some deaf) initial_listeners ≡ err callback_nil
unfolding reg_auth_channel_listener
deaf_refused = refl

abbrev head_8 : SocketPktHead
head_8 = record { magic = magic_number; module_id = pos 8; seq = pos 1; flag = pos 0; len = 1 }

Reachable-IsRegistry_example : IsRegistry with_session
Reachable-IsRegistry_example =
    Reachable-IsRegistry (registered start (pos 8) (some session_listener) with_session_registered)
