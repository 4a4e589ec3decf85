-- ===== src/Transmission/Runs.antt =====
-- Runs of the transmission's sessions and handlers. A connection is a number here.
use dsoftbus_go.Base.{
  ℕ, nat_eq, ◌≡◌, ◌↔◌, refl, arith, All, Bool, true, false, List, [], ◌∷◌, length, none, some, ok,
  inr,
}
use dsoftbus_go.Base.Int.{pos, int_eq, uint64, uint32, int32, ◌+ℤ◌}
use dsoftbus_go.Base.Table.{lookup, insert}
use dsoftbus_go.Types.{SocketPktHead, AuthChannelData, magic_number}
use dsoftbus_go.Fds.{
  ConnectionManager, new_connection_manager, register_conn, allocate_fd, client, get_conn,
}
use dsoftbus_go.Receive.{on_tcp_data_received}
use dsoftbus_go.Transmission.{
  SessionManager, new_session_manager, open_session, get_session, send_bytes,
}
use dsoftbus_go.Transmission.Messages.{
  TransJson, AuthChannelRequestMsg, DmNegotiateRequest, DmAuthRequest,
}
use dsoftbus_go.Transmission.Handlers.{
  TransAnswers, on_auth_channel_data_recv, on_auth_msg_data_recv, clean_json_data, payload_of,
}
use dsoftbus_go.Transmission.Replies.{IsLastAnswer, answers_are_last}
use dsoftbus_go.Transmission.Panics.{Panics, on_auth_msg_data_recv-none}
use dsoftbus_go.Transmission.Sessions.{session_delivery, IsOpened, sent_bytes_are_received}

new-IsOpened : IsOpened new_session_manager 1000
unfolding lookup
new-IsOpened = record {
  counter_is = refl;
  not_wrapped = omega arith;
  below = λ id s e. absurd (ground arith);
}

abbrev head_9 : SocketPktHead
head_9 = record { magic = magic_number; module_id = pos 9; seq = pos 1; flag = pos 0; len = 1 }

abbrev all_tcp : ℕ → Bool
all_tcp conn = true

abbrev one_client : ConnectionManager ℕ
one_client = (register_conn new_connection_manager 7 client).0

abbrev one_session : SessionManager
one_session = (open_session new_session_manager (97 ∷ []) (98 ∷ []) (pos 2000)).0

sent_bytes_are_received_example :
    (wire : List ℕ) × (send_bytes all_tcp one_session (some one_client) (pos 1001) (104 ∷ 105 ∷ [])
      ≡ ok (7, wire))
    × (on_tcp_data_received wire (length wire)
        ≡ some (pos (length wire), session_delivery (pos 1001) (104 ∷ 105 ∷ []) ∷ []))
unfolding open_session get_session lookup insert get_conn register_conn allocate_fd uint64 uint32
    int32 ◌+ℤ◌
sent_bytes_are_received_example =
    sent_bytes_are_received all_tcp one_session one_client (pos 1001)
      (record {
        session_id = pos 1001;
        session_name = 97 ∷ [];
        peer_name = 98 ∷ [];
        auth_id = pos 2000;
        channel_id = pos 2000;
        is_server = false;
      })
      2000 7 (104 ∷ 105 ∷ []) (omega arith, omega arith) refl refl refl refl (omega arith)
      (omega arith)

-- A peer asks for a channel; later it asks for authentication with a device id of one byte.
abbrev channel_request : AuthChannelRequestMsg
channel_request = record {
  code = pos 1;
  device_id = 100 ∷ [];
  pkg_name = 112 ∷ [];
  src_bus_name = 115 ∷ [];
  dst_bus_name = 116 ∷ [];
  req_id = 114 ∷ [];
  mtu_size = pos 0;
}

abbrev auth_request : DmAuthRequest
auth_request = record {
  msg_type = pos 100;
  itf_ver = [];
  local_device_id = 120 ∷ [];
  auth_type = pos 1;
  token = [];
  is_show_dialog = false;
  target = [];
  visibility = pos 0;
  index = pos 0;
  slice_num = pos 1;
}

abbrev negotiation : DmNegotiateRequest
negotiation = record {
  msg_type = pos 100;
  itf_ver = [];
  local_device_id = 120 ∷ [];
  auth_type = pos 1;
  reply = pos 0;
  authed = false;
  have_credential = false;
  dm_version = [];
  crypto_support = false;
}

abbrev json : TransJson
json = record {
  channel_request = λ b. some channel_request;
  has_message = λ b. some false;
  negotiate_request = λ b. some negotiation;
  auth_request = λ b. some auth_request;
  channel_reply = λ r. r.src_bus_name;
  negotiate_response = λ r. r.local_device_id;
  auth_reply = λ r. r.group_id;
}

abbrev known : TransAnswers
known = record {
  local_udid = some (117 ∷ []);
  has_ga = true;
  has_gm = true;
  has_groups = false;
  member_ok = true;
}

abbrev received : AuthChannelData
received = record {
  module_id = pos 8;
  seq = pos 4;
  flag = pos 0;
  len = 1;
  payload = some (123 ∷ []);
}

answers_are_last_example :
    All (IsLastAnswer json (pos 3) received) (on_auth_channel_data_recv json known (pos 3) received)
answers_are_last_example = answers_are_last json known (pos 3) received

on_auth_msg_data_recv-none_example :
    (on_auth_msg_data_recv json known [] (pos 3) received ≡ none)
    ↔ Panics json known (clean_json_data (payload_of received))
on_auth_msg_data_recv-none_example = on_auth_msg_data_recv-none json known [] (pos 3) received

-- The request with the short id is one of them.
short_id_panics : on_auth_msg_data_recv json known [] (pos 3) received ≡ none
short_id_panics =
    (on_auth_msg_data_recv-none json known [] (pos 3) received).1
      (refl, (negotiation, refl, inr (refl, (auth_request, refl, inr (refl, omega arith)))))
