-- ===== src/Types/Runs.antt =====
-- Concrete connection ids, and the theorems at concrete inputs.
use dsoftbus_go.Base.{◌^◌, ◌<◌, ◌≡◌, refl, arith}
use dsoftbus_go.Base.Int.{pos, negsuc, uint32, uint64}
use dsoftbus_go.Types.{gen_conn_id, get_conn_type, get_conn_id, get_fd}
use dsoftbus_go.Types.ConnId.{get-gen_conn_id}

wifi_1001 : gen_conn_id (pos 1) (pos 1001) ≡ 0x1_0000_03e9
unfolding gen_conn_id uint64
wifi_1001 = refl

negative_fd : gen_conn_id (pos 2) (negsuc 0) ≡ 0x2_ffff_ffff
unfolding gen_conn_id uint64
negative_fd = refl

get-gen_conn_id_example :
    (gen_conn_id (pos 2) (negsuc 0) < 2 ^ 64)
    × (get_conn_type (gen_conn_id (pos 2) (negsuc 0)) ≡ pos 2)
    × (get_fd (gen_conn_id (pos 2) (negsuc 0)) ≡ negsuc 0)
    × (get_conn_id (gen_conn_id (pos 2) (negsuc 0)) ≡ uint32 (negsuc 0))
get-gen_conn_id_example = get-gen_conn_id (pos 2) (negsuc 0) (omega arith) (omega arith)
