-- ===== src/Channel/Laws.antt =====
-- The registry behaves as a map from modules to listeners.
use dsoftbus_go.Base.{
  ℕ, ◌==◌, ◌≡◌, ◌≢◌, arith, if◌then◌else◌, true, List, [], ◌∷◌, Option, none, some, ok, Bool-cases,
  inl, inr,
}
use dsoftbus_go.Base.Int.{ℤ, int_eq, int_beq_iff}
use dsoftbus_go.Types.{SocketPktHead}
use dsoftbus_go.Channel.{
  AuthChannelListener, Registry, ChannelEvent, data_received, set_listener,
  reg_auth_channel_listener, unreg_auth_channel_listener, find_listener,
  notify_channel_data_received, initial_listeners,
}

find-set_listener :
    (m j : ℤ) (l : AuthChannelListener) (r : Registry)
    → find_listener j (set_listener m l r) ≡ (if m == j then some l else find_listener j r)
unfolding find_listener set_listener
find-set_listener m j l [] = ground arith
find-set_listener m j l (x ∷ r) = ground (
  arith,
  int_beq_iff m j,
  int_beq_iff x.module_id m,
  int_beq_iff x.module_id j,
  find-set_listener m j l r,
)

find-unreg :
    (m j : ℤ) (r : Registry)
    → find_listener j (unreg_auth_channel_listener m r)
      ≡ (if m == j then none else find_listener j r)
unfolding find_listener unreg_auth_channel_listener
find-unreg m j [] = ground arith
find-unreg m j (x ∷ r) =
    ground (
      arith,
      int_beq_iff m j,
      int_beq_iff x.module_id m,
      int_beq_iff x.module_id j,
      find-unreg m j r,
    )

-- The call that a packet leads to.
abbrev pub data_event : AuthChannelListener → ℤ → SocketPktHead → List ℕ → ChannelEvent
data_event l fd head body = data_received l fd (record {
  module_id = head.module_id;
  seq = head.seq;
  flag = head.flag;
  len = head.len;
  payload = some body;
})

-- After a registration for a module, a packet of that module is handed to the new listener, once and
-- with its fields and bytes; packets of other modules go where they went before.
pub reg-dispatch :
    (m fd : ℤ) (l : AuthChannelListener) (head : SocketPktHead) (body : List ℕ) (r r' : Registry)
    → reg_auth_channel_listener m (some l) r ≡ ok r'
    → notify_channel_data_received fd head body r' ≡ (
        if m == head.module_id
        then data_event l fd head body ∷ []
        else notify_channel_data_received fd head body r)
unfolding reg_auth_channel_listener notify_channel_data_received
reg-dispatch m fd l head body r r' e = elim (Bool-cases l.on_data_received) [
  | inr no_callback ↦ absurd (cc (rw (no_callback, reg_auth_channel_listener) at e))
  | inl callback ↦
      let same : r' ≡ set_listener m l r = ground arith in
      let found = find-set_listener m head.module_id l r in
      ground (arith, int_beq_iff m head.module_id, found)
]

-- After a listener is taken away, packets of its module are dropped; the others go where they went.
pub unreg-dispatch :
    (m fd : ℤ) (head : SocketPktHead) (body : List ℕ) (r : Registry)
    → notify_channel_data_received fd head body (unreg_auth_channel_listener m r)
      ≡ (if m == head.module_id then [] else notify_channel_data_received fd head body r)
unfolding notify_channel_data_received
unreg-dispatch m fd head body r =
    let found = find-unreg m head.module_id r in ground (arith, int_beq_iff m head.module_id, found)

-- The calls on the registry, in any order.
pub data Reachable : Registry → Type 0 where
  start : Reachable initial_listeners
  registered :
      {r r' : Registry}
      → Reachable r
      → (m : ℤ) (l : Option AuthChannelListener) → reg_auth_channel_listener m l r ≡ ok r'
      → Reachable r'
  unregistered :
      {r : Registry} → Reachable r → (m : ℤ) → Reachable (unreg_auth_channel_listener m r)

-- No entry of the list is for the module.
abbrev pub Absent : ℤ → Registry → Type 0
Absent m [] = Unit {0}
Absent m (x ∷ r) = (x.module_id ≢ m) × Absent m r

-- A listener in the list has its data callback, and no two entries are for one module.
abbrev pub HasCallback : Option AuthChannelListener → Type 0
HasCallback none = Unit {0}
HasCallback (some l) = l.on_data_received ≡ true

abbrev pub IsRegistry : Registry → Type 0
IsRegistry [] = Unit {0}
IsRegistry (x ∷ r) = Absent x.module_id r × HasCallback x.listener × IsRegistry r

Absent-set :
    (m j : ℤ) (l : AuthChannelListener) (r : Registry)
    → j ≢ m
    → Absent m r
    → Absent m (set_listener j l r)
unfolding set_listener
Absent-set m j l [] h a = (h, tt)
Absent-set m j l (x ∷ r) h (p, a) = elim (Bool-cases (x.module_id == j)) [
  | inl e ↦ rw e (p, a)
  | inr e ↦ rw e (p, Absent-set m j l r h a)
]

Absent-unreg : (m j : ℤ) (r : Registry) → Absent m r → Absent m (unreg_auth_channel_listener j r)
unfolding unreg_auth_channel_listener
Absent-unreg m j [] a = tt
Absent-unreg m j (x ∷ r) (p, a) = elim (Bool-cases (x.module_id == j)) [
  | inl e ↦ rw e (p, a)
  | inr e ↦ rw e (p, Absent-unreg m j r a)
]

IsRegistry-set :
    (m : ℤ) (l : AuthChannelListener) (r : Registry)
    → l.on_data_received ≡ true
    → IsRegistry r
    → IsRegistry (set_listener m l r)
unfolding set_listener
IsRegistry-set m l [] h v = (tt, h, tt)
IsRegistry-set m l (x ∷ r) h (a, c, v) = elim (Bool-cases (x.module_id == m)) [
  | inl e ↦ rw e (a, h, v)
  | inr e ↦ rw e (
    Absent-set x.module_id m l r (ground (arith, int_beq_iff x.module_id m)) a,
    c,
    IsRegistry-set m l r h v,
  )
]

IsRegistry-unreg :
    (m : ℤ) (r : Registry) → IsRegistry r → IsRegistry (unreg_auth_channel_listener m r)
unfolding unreg_auth_channel_listener
IsRegistry-unreg m [] v = tt
IsRegistry-unreg m (x ∷ r) (a, c, v) = elim (Bool-cases (x.module_id == m)) [
  | inl e ↦ rw e (a, tt, v)
  | inr e ↦ rw e (Absent-unreg x.module_id m r a, c, IsRegistry-unreg m r v)
]

IsRegistry-reg :
    (m : ℤ) (l : Option AuthChannelListener) (r r' : Registry)
    → reg_auth_channel_listener m l r ≡ ok r'
    → IsRegistry r
    → IsRegistry r'
unfolding reg_auth_channel_listener
IsRegistry-reg m none r r' e v = absurd (cc e)
IsRegistry-reg m (some l) r r' e v = elim (Bool-cases l.on_data_received) [
  | inr no_callback ↦ absurd (cc (rw (no_callback, reg_auth_channel_listener) at e))
  | inl callback ↦
      let same : r' ≡ set_listener m l r = ground arith in rw same (IsRegistry-set m l r callback v)
]

-- Whatever was registered and unregistered: the list has one entry for a module at most, and a
-- listener in it can be called.
pub Reachable-IsRegistry : {r : Registry} → Reachable r → IsRegistry r
Reachable-IsRegistry start = ((λ e. cc e, tt), tt, (tt, tt, tt))
Reachable-IsRegistry (registered {r} {r'} reach m l e) =
    IsRegistry-reg m l r r' e (Reachable-IsRegistry reach)
Reachable-IsRegistry (unregistered {r} reach m) = IsRegistry-unreg m r (Reachable-IsRegistry reach)
