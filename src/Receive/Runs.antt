-- ===== src/Receive/Runs.antt =====
-- Received bytes, and the theorems at concrete inputs.
use dsoftbus_go.Base.{◌≡◌, refl, arith, List, [], ◌∷◌, ◌++◌, length, take, some, ok}
use dsoftbus_go.Base.Int.{pos, negsuc, uint32, uint64, int32, int64}
use dsoftbus_go.Base.Bytes.{le_put, le_get}
use dsoftbus_go.Packet.{head_bytes, head_of, pack_socket_pkt, unpack_socket_pkt}
use dsoftbus_go.Packet.Runs.{msg_head, msg_bytes, msg_head-IsHead}
use dsoftbus_go.Receive.{Delivery, next_packet, recv_loop, on_tcp_data_received}
use dsoftbus_go.Receive.Frames.{Frames, End}
use dsoftbus_go.Receive.Refinement.{on_tcp_data_received-Frames, returned}
use dsoftbus_go.Receive.Streams.{IsSendable, pack_all, frame_bytes, on_tcp_data_received-pack_all}

abbrev pub msg : Delivery
msg = record { head = msg_head; body = 104 ∷ 105 ∷ [] }

pub msg-IsSendable : IsSendable msg
msg-IsSendable = record {
  head_ok = msg_head-IsHead;
  magic_ok = refl;
  not_empty = omega arith;
  not_long = omega arith;
  body_size = refl;
}

-- Two packets in one read.
two_received : on_tcp_data_received (msg_bytes ++ msg_bytes) 52 ≡ some (pos 52, msg ∷ msg ∷ [])
unfolding on_tcp_data_received recv_loop next_packet unpack_socket_pkt head_of le_get int32 int64
two_received = refl

-- Without the magic number.
bad_magic : on_tcp_data_received (0 ∷ msg_bytes) 27 ≡ some (negsuc 0, [])
unfolding on_tcp_data_received recv_loop next_packet unpack_socket_pkt head_of le_get int32 int64
bad_magic = refl

on_tcp_data_received-Frames_example :
    (ds : List Delivery) × (e : End) × Frames (take 26 msg_bytes) ds e
    × (on_tcp_data_received msg_bytes 26 ≡ some (returned (take 26 msg_bytes) e, ds))
on_tcp_data_received-Frames_example = on_tcp_data_received-Frames msg_bytes 26 (omega arith)

pub msg_frame : frame_bytes msg ≡ msg_bytes
unfolding head_bytes le_put uint32 uint64
msg_frame = refl

pub one_packed : pack_all (msg ∷ []) ≡ ok msg_bytes
unfolding pack_all pack_socket_pkt head_bytes le_put uint32 uint64
one_packed = refl

-- One byte of a second packet, and a stale byte in the buffer.
on_tcp_data_received-pack_all_example :
    on_tcp_data_received ((msg_bytes ++ 0xCE ∷ []) ++ 77 ∷ []) (length (msg_bytes ++ 0xCE ∷ []))
    ≡ some (pos (length msg_bytes), msg ∷ [])
unfolding head_bytes le_put uint32 uint64
on_tcp_data_received-pack_all_example =
    on_tcp_data_received-pack_all (msg ∷ []) msg_bytes (0xCE ∷ [])
      (0xFA ∷ 0xBE ∷ 0xBA ∷ 9 ∷ 0 ∷ 0 ∷ 0 ∷ 7 ∷ 0 ∷ 0 ∷ 0 ∷ 0 ∷ 0 ∷ 0 ∷ 0 ∷ 255 ∷ 255 ∷ 255 ∷ 255
        ∷ 2 ∷ 0 ∷ 0 ∷ 0 ∷ 104 ∷ 105 ∷ [])
      (77 ∷ []) msg (msg-IsSendable, tt) msg-IsSendable one_packed refl (omega arith)
