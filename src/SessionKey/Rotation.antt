-- ===== src/SessionKey/Rotation.antt =====
-- The keys that the manager has for each id, and what SetSessionKey does to them.
use dsoftbus_go.Base.{
  ℕ, ◌≡◌, ◌≢◌, refl, ap, sym, ◌∙◌, arith, if◌then◌else◌, ◌==◌, List, [], ◌∷◌, ◌++◌, last?, length,
  Option, some, Bool-cases, Option-cases, inl, inr, ok, nat_eq, nat_beq_iff,
}
use dsoftbus_go.Base.Int.{ℤ, int_eq, int_beq_iff}
use dsoftbus_go.Base.Table.{insert, lookup-insert}
use dsoftbus_go.SessionKey.{
  SessionKey, SessionKeyManager, key_list, next_index, set_session_key, find_key,
}
use dsoftbus_go.SessionKey.KeyLists.{
  IsOrdered, HasRoom, next_index-Above, IsOrdered-append, find_key-append, find_key-newest,
  key_bytes,
}

-- The indices of every id grow along its list.
abbrev pub IsManager : SessionKeyManager → Type 0
IsManager m = (id : ℤ) → IsOrdered (key_list id m)

abbrev pub key_at : SessionKeyManager → ℤ → ℤ → Option (List ℕ)
key_at m id i = key_bytes (find_key i (key_list id m))

-- A write for one id is seen by that id only.
pub key_list-insert :
    (id j : ℤ) (l : List SessionKey) (m : SessionKeyManager)
    → key_list j (record m { keys = insert id l m.keys }) ≡ (if id == j then l else key_list j m)
key_list-insert id j l m = ground (arith, lookup-insert id j l m.keys)

pub inserted-IsManager :
    (id : ℤ) (l : List SessionKey) (m : SessionKeyManager)
    → IsOrdered l
    → IsManager m
    → IsManager (record m { keys = insert id l m.keys })
inserted-IsManager id l m o v j = elim (Bool-cases (id == j)) [
  | inl e ↦ rw (key_list-insert id j l m, e) o
  | inr e ↦ rw (key_list-insert id j l m, e) (v j)
]

abbrev pub new_key : ℤ → List ℕ → ℕ → ℕ → SessionKey
new_key i key t u = record { index = i; key = key; create_time = t; last_used = u }

abbrev pub with_key : SessionKeyManager → ℤ → List ℕ → ℕ → ℕ → SessionKeyManager
with_key m id key t u =
    let l = key_list id m in
    record m { keys = insert id (l ++ new_key (next_index l) key t u ∷ []) m.keys }

pub set_session_key_16 :
    (m : SessionKeyManager) (id : ℤ) (key : List ℕ) (t u : ℕ)
    → length key ≡ 16
    → ((set_session_key m id key t u).0 ≡ with_key m id key t u)
      × ((set_session_key m id key t u).1 ≡ ok (next_index (key_list id m)))
unfolding set_session_key
set_session_key_16 m id key t u h = rw ((nat_beq_iff (length key) 16).1 h) (refl, refl)

key_bytes-append :
    (i : ℤ) (l r : List SessionKey) (key : List ℕ)
    → key_bytes (find_key i l) ≡ some key
    → key_bytes (find_key i (l ++ r)) ≡ some key
key_bytes-append i l r key e = elim (Option-cases (find_key i l)) [
  | inl gone ↦ absurd (cc (e, ap key_bytes gone))
  | inr (k, found) ↦ ap key_bytes (find_key-append i l r k found) ∙ sym (ap key_bytes found) ∙ e
]

-- Setting a key of 16 bytes, while the last index of the id is not the largest int32, returns an
-- index under which the new key is found. Every key that was there is found as before under its own
-- index, no other id is touched, and the indices still grow.
pub set_session_key-key_at :
    (m : SessionKeyManager) (id : ℤ) (key : List ℕ) (t u : ℕ)
    → IsManager m
    → HasRoom (last? (key_list id m))
    → length key ≡ 16
    → let m' = (set_session_key m id key t u).0 in
      ((set_session_key m id key t u).1 ≡ ok (next_index (key_list id m)))
      × (key_at m' id (next_index (key_list id m)) ≡ some key)
      × ((i : ℤ) (old : List ℕ) → key_at m id i ≡ some old → key_at m' id i ≡ some old)
      × ((j : ℤ) → id ≢ j → key_list j m' ≡ key_list j m)
      × IsManager m'
set_session_key-key_at m id key t u v room h =
    let l = key_list id m in
    let i = next_index l in
    let new = l ++ new_key i key t u ∷ [] in
    let e = set_session_key_16 m id key t u h in
    let (fits, above) = next_index-Above l (v id) room in
    let here : key_list id (with_key m id key t u) ≡ new =
      rw (key_list-insert id id new m, (int_beq_iff id id).1 refl) refl in
    (
      e.1,
      rw e.0 (rw here (ap key_bytes (find_key-newest l (new_key i key t u) above))),
      λ j old p. rw e.0 (rw here (key_bytes-append j l _ old p)),
      λ j ne. rw e.0 (rw (key_list-insert id j new m) (ground (arith, int_beq_iff id j))),
      rw e.0 (inserted-IsManager id new m (IsOrdered-append l _ (v id) fits above) v),
    )
