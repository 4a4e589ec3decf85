-- ===== src/Types.antt =====
-- pkg/authentication/types.go: the constants, the packet heads, and the connection id.
pub mod ConnId
pub mod Runs
use Prim.Native.Nat.{bit_and, bit_or}
use Prim.Native.String.{String}
use dsoftbus_go.Base.{ℕ, ◌*◌, ◌/◌, ◌%◌, ◌^◌, ◌==◌, if◌then◌else◌, List, Option}
use dsoftbus_go.Base.Int.{ℤ, pos, negsuc, uint64, int32, int_eq}

abbrev pub magic_number : ℕ
magic_number = 0xBABEFACE

abbrev pub auth_pkt_head_len : ℕ
auth_pkt_head_len = 24

abbrev pub auth_socket_max_data_len : ℕ
auth_socket_max_data_len = 65536

-- The module ids that the code routes by.
abbrev pub module_trust_engine : ℤ
module_trust_engine = pos 1

abbrev pub module_auth_sdk : ℤ
module_auth_sdk = pos 3

abbrev pub module_auth_connection : ℤ
module_auth_connection = pos 5

abbrev pub module_auth_channel : ℤ
module_auth_channel = pos 8

abbrev pub module_auth_msg : ℤ
module_auth_msg = pos 9

abbrev pub module_meta_auth : ℤ
module_meta_auth = pos 21

abbrev pub data_type_auth : ℕ
data_type_auth = 0xFFFF0001

abbrev pub data_type_device_info : ℕ
data_type_device_info = 0xFFFF0002

abbrev pub data_type_device_id : ℕ
data_type_device_id = 0xFFFF0003

abbrev pub data_type_connection : ℕ
data_type_connection = 0xFFFF0004

abbrev pub auth_link_type_wifi : ℤ
auth_link_type_wifi = pos 1

abbrev mask_uint64_h32 : ℕ
mask_uint64_h32 = 0xFFFFFFFF00000000

abbrev mask_uint64_l32 : ℕ
mask_uint64_l32 = 0x00000000FFFFFFFF

pub record SocketPktHead : Type 0 where
  pub magic : ℕ
  pub module_id : ℤ
  pub seq : ℤ
  pub flag : ℤ
  pub len : ℕ

pub record AuthDataHead : Type 0 where
  pub data_type : ℕ
  pub module_id : ℤ
  pub seq : ℤ
  pub flag : ℤ
  pub len : ℕ

pub record AuthConnInfo : Type 0 where
  pub link_type : ℤ
  pub ip : String
  pub port : ℤ
  pub udid : String
  pub peer_uid : String

pub record AuthChannelData : Type 0 where
  pub module_id : ℤ
  pub seq : ℤ
  pub flag : ℤ
  pub len : ℕ
  pub payload : Option (List ℕ)

-- The connection type in the high half, the descriptor in the low half.
unfoldable pub gen_conn_id : ℤ → ℤ → ℕ
gen_conn_id conn_type fd =
    let high_part = bit_and (uint64 conn_type * 2 ^ 32 % 2 ^ 64) mask_uint64_h32 in
    let low_part = bit_and (uint64 fd) mask_uint64_l32 in bit_or high_part low_part

unfoldable pub get_conn_type : ℕ → ℤ
get_conn_type conn_id = int32 (bit_and (conn_id / 2 ^ 32) mask_uint64_l32)

unfoldable pub get_conn_id : ℕ → ℕ
get_conn_id conn_id = bit_and conn_id mask_uint64_l32 % 2 ^ 32

unfoldable pub get_fd : ℕ → ℤ
get_fd conn_id = int32 (bit_and conn_id mask_uint64_l32)

unfoldable pub get_conn_type_str : ℕ → String
get_conn_type_str conn_id =
    let conn_type = get_conn_type conn_id in
    if conn_type == pos 1
    then "wifi/eth"
    else if conn_type == pos 2
    then "br"
    else if conn_type == pos 3
    then "ble"
    else if conn_type == pos 4
    then "p2p"
    else if conn_type == pos 5
    then "enhanced_p2p"
    else "unknown"

unfoldable pub module_to_data_type : ℤ → ℕ
module_to_data_type m =
    if m == module_trust_engine
    then data_type_device_id
    else if m == module_auth_sdk
    then data_type_auth
    else if m == module_auth_connection
    then data_type_device_info
    else data_type_connection
