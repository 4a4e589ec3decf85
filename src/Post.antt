-- ===== src/Post.antt =====
-- pkg/authentication/auth_tcp_connection.go: SocketPostBytes and SocketDisconnectDevice, and
-- auth_channel.go: AuthPostChannelData and AuthCloseChannel, over the descriptor manager. The global
-- manager is `none` before the first socket. What goes to the network is in the result.
pub mod Received
pub mod Runs
use dsoftbus_go.Base.{
  ℕ, ◌==◌, nat_eq, if◌then◌else◌, ◌||◌, Bool, true, false, List, Option, none, some, Result, ok,
  err, ◌>>=◌,
}
use dsoftbus_go.Base.Int.{ℤ, pos, negsuc, uint64, ltb_ℤ}
use dsoftbus_go.Types.{
  SocketPktHead, AuthDataHead, AuthChannelData, magic_number, data_type_connection,
}
use dsoftbus_go.Packet.{PktError, pack_socket_pkt}
use dsoftbus_go.Fds.{ConnectionManager, FdError, send_bytes, unregister_conn}

pub data PostError : Type 0 where
  invalid_parameters no_manager : PostError
  pack_failed : PktError → PostError
  send_failed : FdError → PostError

abbrev pub packet_head : AuthDataHead → SocketPktHead
packet_head h = record {
  magic = magic_number;
  module_id = h.module_id;
  seq = h.seq;
  flag = h.flag;
  len = h.len;
}

abbrev pub connection_head : AuthChannelData → AuthDataHead
connection_head d = record {
  data_type = data_type_connection;
  module_id = d.module_id;
  seq = d.seq;
  flag = d.flag;
  len = d.len;
}

abbrev or_pack_failed : {A : Type 0} → Result PktError A → Result PostError A
or_pack_failed (ok a) = ok a
or_pack_failed (err e) = err (pack_failed e)

abbrev or_send_failed : {C : Type 0} → List ℕ → Result FdError C → Result PostError (C × List ℕ)
or_send_failed buf (ok conn) = ok (conn, buf)
or_send_failed buf (err e) = err (send_failed e)

module _ {C : Type 0} (is_tcp : C → Bool) where
  abbrev send_packet : Option (ConnectionManager C) → ℤ → List ℕ → Result PostError (C × List ℕ)
  send_packet none fd buf = err no_manager
  send_packet (some m) fd buf = or_send_failed buf (send_bytes is_tcp m (uint64 fd))

  -- The connection that is written to, and the bytes.
  unfoldable pub socket_post_bytes :
      Option (ConnectionManager C)
      → ℤ
      → Option AuthDataHead
      → Option (List ℕ)
      → Result PostError (C × List ℕ)
  socket_post_bytes s fd none payload = err invalid_parameters
  socket_post_bytes s fd (some head) none = err invalid_parameters
  socket_post_bytes s fd (some head) (some payload) =
      or_pack_failed (pack_socket_pkt (some (packet_head head)) (some payload)) >>= send_packet s fd

  unfoldable pub auth_post_channel_data :
      Option (ConnectionManager C) → ℤ → Option AuthChannelData → Result PostError (C × List ℕ)
  auth_post_channel_data s channel_id none = err invalid_parameters
  auth_post_channel_data s channel_id (some d) = elim d.payload [
    | none ↦ err invalid_parameters
    | some payload ↦
        if ltb_ℤ channel_id (pos 0) || d.len == 0
        then err invalid_parameters
        else socket_post_bytes s channel_id (some (connection_head d)) (some payload)
  ]

module _ {C : Type 0} where
  -- With the connection that was closed.
  unfoldable pub socket_disconnect_device :
      ℤ → Option (ConnectionManager C) → Option (ConnectionManager C) × Option C
  socket_disconnect_device (negsuc n) s = (s, none)
  socket_disconnect_device (pos n) none = (none, none)
  socket_disconnect_device (pos n) (some m) =
      let (m', closed) = unregister_conn m (uint64 (pos n)) in (some m', closed)

  unfoldable pub auth_close_channel :
      ℤ → Option (ConnectionManager C) → Option (ConnectionManager C) × Option C
  auth_close_channel (negsuc n) s = (s, none)
  auth_close_channel (pos n) s = socket_disconnect_device (pos n) s
