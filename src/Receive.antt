-- ===== src/Receive.antt =====
-- pkg/authentication/auth_tcp_connection.go: onTcpDataReceived, which cuts the first `used` bytes of
-- the receive buffer into packets. What it hands to processSocketData is the list of deliveries.
pub mod Frames
pub mod Refinement
pub mod Streams
pub mod Runs
use mathlib.Core.Option
use dsoftbus_go.Base.{
  ℕ, zero, suc, ◌+◌, ◌==◌, nat_eq, if◌then◌else◌, ltb, leb, not, ◌||◌, List, [], ◌∷◌, length, take,
  drop, Option, none, some, Result, ok, err, Bool, true, false,
}
use dsoftbus_go.Base.Int.{ℤ, pos, negsuc}
use dsoftbus_go.Types.{SocketPktHead, magic_number, auth_pkt_head_len, auth_socket_max_data_len}
use dsoftbus_go.Packet.{unpack_socket_pkt}

pub record Delivery : Type 0 where
  pub head : SocketPktHead
  pub body : List ℕ

-- What one round of the loop finds: too few bytes (the loop ends, or breaks), bytes that are no
-- packet (the loop returns -1), or a packet.
pub data Next : Type 0 where
  incomplete corrupt : Next
  packet : Delivery → Next

-- The head is good if the magic number is right and the length is neither 0 nor above the limit.
abbrev pub good_head : SocketPktHead → Bool
good_head h =
    if not (h.magic == magic_number)
    then false
    else not (h.len == 0 || ltb auth_socket_max_data_len h.len)

unfoldable pub next_packet : List ℕ → ℕ → ℕ → Next
next_packet buf used processed =
    if leb (processed + auth_pkt_head_len) used
    then elim (unpack_socket_pkt (drop processed buf)) [
      | err e ↦ corrupt
      | ok head ↦
          if good_head head
          then (if ltb used (processed + (auth_pkt_head_len + head.len))
              then incomplete
              else packet (record {
                head = head;
                body = take head.len (drop (processed + auth_pkt_head_len) buf);
              }))
          else corrupt
    ]
    else incomplete

abbrev pub deliver : Delivery → ℤ × List Delivery → ℤ × List Delivery
deliver d (n, ds) = (n, d ∷ ds)

-- The result of the Go function, with what was delivered before it returned.
unfoldable pub recv_loop : ℕ → List ℕ → ℕ → ℕ → Option (ℤ × List Delivery)
recv_loop zero buf used processed = none
recv_loop (suc fuel) buf used processed = elim (next_packet buf used processed) [
  | incomplete ↦ some (pos processed, [])
  | corrupt ↦ some (negsuc 0, [])
  | packet d ↦
      Option.map (deliver d)
        (recv_loop fuel buf used (processed + (auth_pkt_head_len + d.head.len)))
]

-- Each round but the last takes 25 bytes at least, so `used + 1` rounds are enough.
unfoldable pub on_tcp_data_received : List ℕ → ℕ → Option (ℤ × List Delivery)
on_tcp_data_received buf used = recv_loop (used + 1) buf used 0
