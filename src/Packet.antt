-- ===== src/Packet.antt =====
-- pkg/authentication/auth_tcp_connection.go: PackSocketPkt and UnpackSocketPkt. A byte slice is a
-- list of numbers below 256, and a nil slice or pointer is `none`.
pub mod RoundTrip
pub mod Runs
use dsoftbus_go.Base.{
  ℕ, ◌^◌, ◌<◌, ◌%◌, ◌==◌, nat_eq, if◌then◌else◌, ltb, List, ◌++◌, length, take, drop, Option, none,
  some, Result, ok, err,
}
use dsoftbus_go.Base.Int.{ℤ, uint32, uint64, int32, int64, IsInt32, IsInt64}
use dsoftbus_go.Base.Bytes.{le_put, le_get}
use dsoftbus_go.Types.{SocketPktHead, auth_pkt_head_len}

pub data PktError : Type 0 where
  nil_head nil_data length_mismatch too_short : PktError

-- The head as it stands on the wire: 4, 4, 8, 4 and 4 bytes, little endian.
unfoldable pub head_bytes : SocketPktHead → List ℕ
head_bytes h =
    le_put 4 h.magic
    ++ (le_put 4 (uint32 h.module_id)
        ++ (le_put 8 (uint64 h.seq) ++ (le_put 4 (uint32 h.flag) ++ le_put 4 h.len)))

unfoldable pub pack_socket_pkt : Option SocketPktHead → Option (List ℕ) → Result PktError (List ℕ)
pack_socket_pkt none payload = err nil_head
pack_socket_pkt (some h) none = err nil_data
pack_socket_pkt (some h) (some payload) =
    if h.len == length payload % 2 ^ 32 then ok (head_bytes h ++ payload) else err length_mismatch

-- The fields at their offsets in the buffer.
unfoldable pub head_of : List ℕ → SocketPktHead
head_of buf = record {
  magic = le_get (take 4 buf);
  module_id = int32 (le_get (take 4 (drop 4 buf)));
  seq = int64 (le_get (take 8 (drop 8 buf)));
  flag = int32 (le_get (take 4 (drop 16 buf)));
  len = le_get (take 4 (drop 20 buf));
}

unfoldable pub unpack_socket_pkt : List ℕ → Result PktError SocketPktHead
unpack_socket_pkt buf =
    if ltb (length buf) auth_pkt_head_len then err too_short else ok (head_of buf)

-- Every field is in the range of its Go type.
pub record IsHead (h : SocketPktHead) : Type 0 where
  pub magic_fits : h.magic < 2 ^ 32
  pub module_fits : IsInt32 h.module_id
  pub seq_fits : IsInt64 h.seq
  pub flag_fits : IsInt32 h.flag
  pub len_fits : h.len < 2 ^ 32
