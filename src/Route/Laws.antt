-- ===== src/Route/Laws.antt =====
-- Who gets a packet.

use dsoftbus_go.Base.{
  ℕ, ◌≡◌, ◌≢◌, ◌<◌, refl, ap, sym, ◌∙◌, arith, List, [], ◌∷◌, ◌++◌, map, length, Option, some, ok,
  ◌⊎◌, All,
}
use dsoftbus_go.Base.Int.{ℤ, pos, int_eq, int_beq_iff}
use dsoftbus_go.Types.{SocketPktHead, module_auth_channel, module_auth_msg}
use dsoftbus_go.Receive.{Delivery}
use dsoftbus_go.Receive.Streams.{IsSendable, pack_all, frame_bytes, on_tcp_data_received-pack_all}
use dsoftbus_go.Channel.{
  AuthChannelListener, Registry, reg_auth_channel_listener, notify_channel_data_received,
}
use dsoftbus_go.Channel.Laws.{reg-dispatch, data_event}
use dsoftbus_go.Route.{
  Routes, SocketCallback, SocketEvent, channel, process_socket_data, process_all, on_tcp_data,
}

-- A packet of a module other than 8 (AUTH_CHANNEL) and 9 (AUTH_MSG) leads to no call of a channel
-- listener: what is called does not depend on the registry.
pub other_modules_ignore_listeners :
    (r r' : Routes) (fd : ℤ) (head : SocketPktHead) (body : List ℕ)
    → r.callback ≡ r'.callback
    → head.module_id ≢ module_auth_channel
    → head.module_id ≢ module_auth_msg
    → process_socket_data r fd head body ≡ process_socket_data r' fd head body
unfolding process_socket_data
other_modules_ignore_listeners r r' fd head body e h8 h9 = ground (
  arith,
  int_beq_iff head.module_id module_auth_channel,
  int_beq_iff head.module_id module_auth_msg,
)

-- A packet of module 8 or 9 leads to no call of the socket callback.
pub channel_modules_ignore_callback :
    (r r' : Routes) (fd : ℤ) (head : SocketPktHead) (body : List ℕ)
    → r.listeners ≡ r'.listeners
    → (head.module_id ≡ module_auth_channel) ⊎ (head.module_id ≡ module_auth_msg)
    → process_socket_data r fd head body ≡ process_socket_data r' fd head body
unfolding process_socket_data
channel_modules_ignore_callback r r' fd head body e h = ground (
  arith,
  int_beq_iff head.module_id module_auth_channel,
  int_beq_iff head.module_id module_auth_msg,
)

process-channel :
    (r : Routes) (fd : ℤ) (head : SocketPktHead) (body : List ℕ)
    → (head.module_id ≡ module_auth_channel) ⊎ (head.module_id ≡ module_auth_msg)
    → process_socket_data r fd head body
      ≡ map channel (notify_channel_data_received fd head body r.listeners)
unfolding process_socket_data
process-channel r fd head body h = ground (
  arith,
  int_beq_iff head.module_id module_auth_channel,
  int_beq_iff head.module_id module_auth_msg,
)

abbrev pub channel_call : AuthChannelListener → ℤ → Delivery → SocketEvent
channel_call l fd d = channel (data_event l fd d.head d.body)

process_all-channel :
    (m fd : ℤ) (l : AuthChannelListener) (callback : Option SocketCallback) (r r' : Registry)
    (ds : List Delivery)
    → (m ≡ module_auth_channel) ⊎ (m ≡ module_auth_msg)
    → reg_auth_channel_listener m (some l) r ≡ ok r'
    → All (λ (d : Delivery). d.head.module_id ≡ m) ds
    → process_all (record { callback = callback; listeners = r' }) fd ds
      ≡ map (channel_call l fd) ds
process_all-channel m fd l callback r r' [] c e h = refl
process_all-channel m fd l callback r r' (d ∷ ds) c e (hd, hs) =
    rw (one, process_all-channel m fd l callback r r' ds c e hs) refl
  where
    dispatched :
        notify_channel_data_received fd d.head d.body r' ≡ data_event l fd d.head d.body ∷ []
    dispatched =
        reg-dispatch m fd l d.head d.body r r' e
        ∙ rw ((int_beq_iff m d.head.module_id).1 (sym hd)) refl

    one :
        process_socket_data (record { callback = callback; listeners = r' }) fd d.head d.body
        ≡ channel_call l fd d ∷ []
    one =
        process-channel (record { callback = callback; listeners = r' }) fd d.head d.body (rw hd c)
        ∙ ap (map channel) dispatched

-- From the sender to the listener, whose registration was accepted: packets of a channel module with fields in
-- range and 1 byte to 64 KB, that were packed one behind the
-- other, received with a part of a further packet behind them, lead to one call of the listener
-- registered for the module for each packet, in order, with the fields and the bytes sent, and to no
-- other call. The bytes of these packets are done with.
pub sent_to_listener :
    (m fd : ℤ) (l : AuthChannelListener) (callback : Option SocketCallback) (r r' : Registry)
    (ds : List Delivery) (s part more_bytes junk : List ℕ) (next : Delivery)
    → (m ≡ module_auth_channel) ⊎ (m ≡ module_auth_msg)
    → reg_auth_channel_listener m (some l) r ≡ ok r'
    → All (λ (d : Delivery). d.head.module_id ≡ m) ds
    → All IsSendable ds
    → IsSendable next
    → pack_all ds ≡ ok s
    → part ++ more_bytes ≡ frame_bytes next
    → 0 < length more_bytes
    → on_tcp_data
        (record { callback = callback; listeners = r' })
        fd
        ((s ++ part) ++ junk)
        (length (s ++ part))
      ≡ some (pos (length s), map (channel_call l fd) ds)
unfolding on_tcp_data
sent_to_listener m fd l callback r r' ds s part more_bytes junk next c e same v w p q long =
    rw (on_tcp_data_received-pack_all ds s part more_bytes junk next v w p q long) (
      ap (λ (es : List SocketEvent). some (pos (length s), es))
        (process_all-channel m fd l callback r r' ds c e same))
