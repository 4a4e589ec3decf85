-- ===== src/BusCenter/Ledger.antt =====
-- The ledger of pkg/bus_center against the history of what was notified.
use dsoftbus_go.Base.{
  ℕ, nat_eq, ◌≡◌, sym, ◌∙◌, ap, ◌==◌, if◌then◌else◌, Bool, true, false, List, [], ◌∷◌, Option, none,
  some, Option-cases, Bool-cases, inl, inr, arith,
}
use dsoftbus_go.Base.Table.{lookup, lookup-insert}
use dsoftbus_go.Base.Text.{Bytes, list_eq, same_items_iff}
use dsoftbus_go.BusCenter.{
  NodeInfo, NetLedger, BusCenter, online, offline, is_online, with_status, get_node,
  update_node_status, on_device_online, on_device_offline,
}

-- What the bus center is told, the latest first.
pub data Notice : Type 0 where
  came : NodeInfo → ℕ → Notice
  went : Bytes → ℕ → Notice

unfoldable pub noticed : BusCenter → List Notice → BusCenter
noticed b [] = b
noticed b (came node now ∷ ns) = (on_device_online (noticed b ns) node now).0
noticed b (went network_id now ∷ ns) = (on_device_offline (noticed b ns) network_id now).0

-- Whether the latest notice of the node, if there is one, says that it came.
unfoldable pub is_there : Bytes → List Notice → Bool
is_there id [] = false
is_there id (came node now ∷ ns) = if node.network_id == id then true else is_there id ns
is_there id (went network_id now ∷ ns) = if network_id == id then false else is_there id ns

abbrev pub online_as : Option NodeInfo → Bool
online_as none = false
online_as (some node) = is_online node.status

added :
    (b : BusCenter) (node : NodeInfo) (now : ℕ) (id : Bytes)
    → online_as (get_node (on_device_online b node now).0.ledger id)
      ≡ (if node.network_id == id then true else online_as (get_node b.ledger id))
unfolding on_device_online
added b node now id = ground (
  arith,
  lookup-insert node.network_id id
      (record node { status = online; join_time = now; last_seen = now }) b.ledger,
)

removed :
    (b : BusCenter) (network_id : Bytes) (now : ℕ) (id : Bytes)
    → online_as (get_node (on_device_offline b network_id now).0.ledger id)
      ≡ (if network_id == id then false else online_as (get_node b.ledger id))
unfolding on_device_offline update_node_status
removed b network_id now id = elim (Option-cases (lookup network_id b.ledger)) [
  | inr (node, e) ↦
      ground (arith, lookup-insert network_id id (with_status node offline now) b.ledger)
  | inl e ↦ elim (Bool-cases (network_id == id)) [
    | inr d ↦ ground arith
    | inl d ↦
        let same : network_id ≡ id = (same_items_iff network_id id).0 d in
        let missing : lookup id b.ledger ≡ none =
          ap (λ (x : Bytes). lookup x b.ledger) (sym same) ∙ e in
        ground arith
  ]
]

-- After any sequence of OnDeviceOnline and OnDeviceOffline on an empty ledger, whatever they returned, a
-- node is online in the ledger exactly when the latest of them that names its network id was
-- OnDeviceOnline.
pub ledger_follows_notices :
    (b : BusCenter) (ns : List Notice) (id : Bytes)
    → b.ledger ≡ []
    → online_as (get_node (noticed b ns).ledger id) ≡ is_there id ns
unfolding noticed is_there lookup
ledger_follows_notices b [] id e = ap (λ (t : NetLedger). online_as (lookup id t)) e
ledger_follows_notices b (came node now ∷ ns) id e =
    added (noticed b ns) node now id
    ∙ ap (λ (x : Bool). if node.network_id == id then true else x)
        (ledger_follows_notices b ns id e)
ledger_follows_notices b (went network_id now ∷ ns) id e =
    removed (noticed b ns) network_id now id
    ∙ ap (λ (x : Bool). if network_id == id then false else x) (ledger_follows_notices b ns id e)
