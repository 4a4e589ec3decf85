-- ===== src/Packet/Runs.antt =====
-- Concrete packets, and the theorems at concrete inputs.
use dsoftbus_go.Base.{ℕ, ◌≡◌, refl, arith, List, [], ◌∷◌, some, ok, err}
use dsoftbus_go.Base.Int.{pos, negsuc, uint32, uint64}
use dsoftbus_go.Base.Bytes.{le_put}
use dsoftbus_go.Types.{SocketPktHead, magic_number}
use dsoftbus_go.Packet.{IsHead, length_mismatch, head_bytes, pack_socket_pkt}

abbrev pub msg_head : SocketPktHead
msg_head = record { magic = magic_number; module_id = pos 9; seq = pos 7; flag = negsuc 0; len = 2 }

pub msg_head-IsHead : IsHead msg_head
msg_head-IsHead = record {
  magic_fits = omega arith;
  module_fits = omega arith;
  seq_fits = omega arith;
  flag_fits = omega arith;
  len_fits = omega arith;
}

abbrev pub msg_bytes : List ℕ
msg_bytes =
    0xCE ∷ 0xFA ∷ 0xBE ∷ 0xBA ∷ 9 ∷ 0 ∷ 0 ∷ 0 ∷ 7 ∷ 0 ∷ 0 ∷ 0 ∷ 0 ∷ 0 ∷ 0 ∷ 0 ∷ 255 ∷ 255 ∷ 255
    ∷ 255 ∷ 2 ∷ 0 ∷ 0 ∷ 0 ∷ 104 ∷ 105 ∷ []

pub msg_packed : pack_socket_pkt (some msg_head) (some (104 ∷ 105 ∷ [])) ≡ ok msg_bytes
unfolding pack_socket_pkt head_bytes le_put uint32 uint64
msg_packed = refl

-- A length that is not the payload's is refused.
wrong_length : pack_socket_pkt (some msg_head) (some (104 ∷ [])) ≡ err length_mismatch
unfolding pack_socket_pkt
wrong_length = refl
