-- ===== src/BusCenter/Runs.antt =====
-- Runs of pkg/bus_center.
use mathlib.Core.List.{Perm}
use dsoftbus_go.Base.{nat_eq, ◌≡◌, refl, true, [], ◌∷◌, none, some}
use dsoftbus_go.Base.Int.{pos, negsuc}
use dsoftbus_go.Base.Text.{list_eq}
use dsoftbus_go.Base.Table.{lookup, insert}
use dsoftbus_go.AuthManager.Runs.{accepting, ready_world}
use dsoftbus_go.BusCenter.{
  NodeInfo, offline, online, new_bus_center, join_lnn, join_result, notify_auth_failed,
  each_callback, get_node, get_online_nodes, leave_lnn, on_device_offline, on_device_online,
  node_not_found,
}
use dsoftbus_go.BusCenter.Ledger.{came, went, noticed, online_as, ledger_follows_notices, is_there}
use dsoftbus_go.BusCenter.Joins.{joins_share_result}

abbrev node_a : NodeInfo
node_a = record {
  network_id = 97 ∷ [];
  device_id = [];
  device_name = [];
  device_type = pos 1;
  status = offline;
  auth_seq = pos 0;
  discovery_type = [];
  connect_addr = [];
  join_time = 0;
  last_seen = 0;
}

unknown_node_stays_away :
    leave_lnn new_bus_center (97 ∷ []) true 3 ≡ (new_bus_center, [], some node_not_found)
unfolding leave_lnn on_device_offline lookup
unknown_node_stays_away = refl

one_node_online :
    get_online_nodes (on_device_online new_bus_center node_a 4).0.ledger
    ≡ record node_a { status = online; join_time = 4; last_seen = 4 } ∷ []
unfolding get_online_nodes on_device_online insert
one_node_online = refl

-- It came, went and came again.
ledger_follows_notices_example :
    online_as (
      get_node
        (noticed new_bus_center (came node_a 9 ∷ went (97 ∷ []) 5 ∷ came node_a 4 ∷ [])).ledger
        (97 ∷ []))
    ≡ true
unfolding is_there
ledger_follows_notices_example =
    ledger_follows_notices new_bus_center (came node_a 9 ∷ went (97 ∷ []) 5 ∷ came node_a 4 ∷ [])
      (97 ∷ []) refl

joins_share_result_example :
    let b1 =
      (join_lnn accepting new_bus_center ready_world "10.0.0.2" (pos 7) true 100 3 none 4).0 in
    let b2 =
      (join_lnn accepting b1 ready_world "10.0.0.3" (pos 7) true 100 3 (some (pos 2000)) 4).0 in
    Perm
      (notify_auth_failed b2 100 (negsuc 0))
      (join_result 100 [] (negsuc 0) ∷ join_result 100 [] (negsuc 0) ∷ [])
unfolding notify_auth_failed each_callback
joins_share_result_example =
    joins_share_result accepting new_bus_center ready_world ready_world "10.0.0.2" "10.0.0.3"
      (pos 7) (pos 7) 100 100 3 3 none (some (pos 2000)) 4 4 100 (negsuc 0)
