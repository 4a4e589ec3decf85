-- ===== src/Route/Runs.antt =====
-- The routing of concrete packets, and the theorems at concrete inputs.
use dsoftbus_go.Base.{
  ◌≡◌, refl, arith, [], ◌∷◌, ◌++◌, map, length, Option, none, some, ok, true, inr,
}
use dsoftbus_go.Base.Int.{pos, uint32, uint64}
use dsoftbus_go.Base.Bytes.{le_put}
use dsoftbus_go.Types.{SocketPktHead, magic_number}
use dsoftbus_go.Packet.{head_bytes}
use dsoftbus_go.Packet.Runs.{msg_bytes}
use dsoftbus_go.Receive.Runs.{msg, msg-IsSendable, one_packed}
use dsoftbus_go.Channel.{Registry, initial_listeners, set_listener, reg_auth_channel_listener}
use dsoftbus_go.Channel.Runs.{session_listener}
use dsoftbus_go.Route.{SocketCallback, process_socket_data, on_tcp_data}
use dsoftbus_go.Route.Laws.{channel_call, other_modules_ignore_listeners, sent_to_listener}

abbrev with_messages : Registry
with_messages = set_listener (pos 9) session_listener initial_listeners

messages_registered :
    reg_auth_channel_listener (pos 9) (some session_listener) initial_listeners ≡ ok with_messages
unfolding reg_auth_channel_listener
messages_registered = refl

sent_to_listener_example :
    on_tcp_data
      (record { callback = none; listeners = with_messages })
      (pos 2000)
      ((msg_bytes ++ 0xCE ∷ []) ++ 77 ∷ [])
      (length (msg_bytes ++ 0xCE ∷ []))
    ≡ some (pos (length msg_bytes), map (channel_call session_listener (pos 2000)) (msg ∷ []))
unfolding head_bytes le_put uint32 uint64
sent_to_listener_example =
    sent_to_listener (pos 9) (pos 2000) session_listener none initial_listeners with_messages
      (msg ∷ []) msg_bytes (0xCE ∷ [])
      (0xFA ∷ 0xBE ∷ 0xBA ∷ 9 ∷ 0 ∷ 0 ∷ 0 ∷ 7 ∷ 0 ∷ 0 ∷ 0 ∷ 0 ∷ 0 ∷ 0 ∷ 0 ∷ 255 ∷ 255 ∷ 255 ∷ 255
        ∷ 2 ∷ 0 ∷ 0 ∷ 0 ∷ 104 ∷ 105 ∷ [])
      (77 ∷ []) msg (inr refl) messages_registered (refl, tt) (msg-IsSendable, tt) msg-IsSendable
      one_packed refl (omega arith)

abbrev hearing : Option SocketCallback
hearing = some (record { on_connected = true; on_disconnected = true; on_data_received = true })

-- HiChain's packets carry the module 3 (AUTH_SDK): a listener that is registered for it is not called.
abbrev sdk_head : SocketPktHead
sdk_head = record { magic = magic_number; module_id = pos 3; seq = pos 1; flag = pos 0; len = 1 }

other_modules_ignore_listeners_example :
    process_socket_data
      (record {
        callback = hearing;
        listeners = set_listener (pos 3) session_listener initial_listeners;
      })
      (pos 2000)
      sdk_head
      (5 ∷ [])
    ≡ process_socket_data
        (record { callback = hearing; listeners = initial_listeners })
        (pos 2000)
        sdk_head
        (5 ∷ [])
other_modules_ignore_listeners_example =
    other_modules_ignore_listeners
      (record {
        callback = hearing;
        listeners = set_listener (pos 3) session_listener initial_listeners;
      })
      (record { callback = hearing; listeners = initial_listeners }) (pos 2000) sdk_head (5 ∷ [])
      refl (λ e. absurd (cc e)) (λ e. absurd (cc e))
