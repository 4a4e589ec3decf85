-- ===== src/Route.antt =====
-- pkg/authentication/auth_tcp_connection.go: the callbacks behind the read loops, which route what
-- arrives to the channel listeners or to the socket callback.
pub mod Laws
pub mod Runs
use mathlib.Core.Option
use mathlib.Core.List.{flat_map}
use dsoftbus_go.Base.{
  ℕ, ◌==◌, if◌then◌else◌, Bool, true, false, ◌||◌, List, [], ◌∷◌, ◌++◌, map, Option, none, some,
  Result, ok, err,
}
use dsoftbus_go.Base.Int.{ℤ, int_eq}
use dsoftbus_go.Types.{
  SocketPktHead, AuthDataHead, module_auth_channel, module_auth_msg, module_meta_auth,
  module_to_data_type,
}
use dsoftbus_go.Receive.{Delivery, on_tcp_data_received}
use dsoftbus_go.Channel.{
  Registry, ChannelEvent, notify_channel_data_received, notify_channel_disconnected,
}

-- Which of the callbacks are set.
pub record SocketCallback : Type 0 where
  pub on_connected : Bool
  pub on_disconnected : Bool
  pub on_data_received : Bool

pub record Routes : Type 0 where
  pub callback : Option SocketCallback
  pub listeners : Registry

pub data SocketEvent : Type 0 where
  channel : ChannelEvent → SocketEvent
  socket_connected : ℤ → Bool → SocketEvent
  socket_disconnected : ℤ → SocketEvent
  socket_data : ℤ → AuthDataHead → List ℕ → SocketEvent

pub data RouteError : Type 0 where
  callback_nil : RouteError

unfoldable pub set_socket_callback : Option SocketCallback → Routes → Result RouteError Routes
set_socket_callback none r = err callback_nil
set_socket_callback (some cb) r = ok (record r { callback = some cb })

unfoldable pub unset_socket_callback : Routes → Routes
unset_socket_callback r = record r { callback = none }

unfoldable pub on_tcp_connected : ℤ → Bool → Routes → List SocketEvent
on_tcp_connected fd is_client r = elim r.callback [
  | none ↦ []
  | some cb ↦ if cb.on_connected then socket_connected fd is_client ∷ [] else []
]

-- The socket callback first, then every channel listener.
unfoldable pub on_tcp_disconnected : ℤ → Routes → List SocketEvent
on_tcp_disconnected fd r =
    let first : List SocketEvent = elim r.callback [
      | none ↦ []
      | some cb ↦ if cb.on_disconnected then socket_disconnected fd ∷ [] else []
    ] in
    first ++ map channel (notify_channel_disconnected fd r.listeners)

abbrev pub auth_head : SocketPktHead → AuthDataHead
auth_head h = record {
  data_type = module_to_data_type h.module_id;
  module_id = h.module_id;
  seq = h.seq;
  flag = h.flag;
  len = h.len;
}

unfoldable pub process_socket_data : Routes → ℤ → SocketPktHead → List ℕ → List SocketEvent
process_socket_data r fd head body =
    if head.module_id == module_auth_channel || head.module_id == module_auth_msg
    then map channel (notify_channel_data_received fd head body r.listeners)
    else if head.module_id == module_meta_auth
    then []
    else (elim r.callback [
      | none ↦ []
      | some cb ↦ if cb.on_data_received then socket_data fd (auth_head head) body ∷ [] else []
    ])

abbrev pub process_delivery : Routes → ℤ → Delivery → List SocketEvent
process_delivery r fd d = process_socket_data r fd d.head d.body

abbrev pub process_all : Routes → ℤ → List Delivery → List SocketEvent
process_all r fd [] = []
process_all r fd (d ∷ ds) = process_delivery r fd d ++ process_all r fd ds

-- onTcpDataReceived with the calls that it makes.
unfoldable pub on_tcp_data : Routes → ℤ → List ℕ → ℕ → Option (ℤ × List SocketEvent)
on_tcp_data r fd buf used =
    Option.map (λ (p : ℤ × List Delivery). (p.0, process_all r fd p.1))
      (on_tcp_data_received buf used)
