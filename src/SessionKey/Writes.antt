-- ===== src/SessionKey/Writes.antt =====
-- SetSessionKey, RemoveSessionKey: the whole table of keys after a write, and an index that is used
-- twice.
use dsoftbus_go.Base.{
  ℕ, ◌≡◌, ◌≢◌, ap, sym, ◌∙◌, subst, arith, if◌then◌else◌, ◌==◌, ◌&&◌, List, [], ◌∷◌, ◌++◌, last?,
  length, none, some, Bool-cases, inl, inr, ok,
}
use dsoftbus_go.Base.Int.{ℤ, int_eq, int_beq_iff}
use dsoftbus_go.Base.Table.{lookup, insert, lookup-insert}
use dsoftbus_go.SessionKey.{
  SessionKey, SessionKeyManager, key_list, next_index, set_session_key, find_key,
  remove_session_key,
}
use dsoftbus_go.SessionKey.KeyLists.{HasRoom, next_index-Above, key_bytes}
use dsoftbus_go.SessionKey.KeyRemoval.{without_key-newest}
use dsoftbus_go.SessionKey.Rotation.{
  IsManager, key_at, set_session_key-key_at, set_session_key_16, with_key, new_key,
}
use dsoftbus_go.SessionKey.Lookups.{key_list-touched, remove_session_key-key_at, remove_found}

-- A key at the end of a list is found under its own index only.
find_key-append_other :
    (i : ℤ) (l : List SessionKey) (k : SessionKey)
    → k.index ≢ i
    → find_key i (l ++ k ∷ []) ≡ find_key i l
unfolding find_key
find_key-append_other i [] k ne = ground (arith, int_beq_iff k.index i)
find_key-append_other i (x ∷ l) k ne = ground (arith, find_key-append_other i l k ne)

same_id :
    (id j i : ℤ) (m m' : SessionKeyManager)
    → key_list j m' ≡ key_list j m
    → key_at m' j i ≡ key_at m j i
same_id id j i m m' h = ap (λ (l : List SessionKey). key_bytes (find_key i l)) h

stored :
    (m : SessionKeyManager) (id : ℤ) (l : List SessionKey)
    → lookup id (record m { keys = insert id l m.keys }).keys ≡ some l
stored m id l = ground (arith, lookup-insert id id l m.keys, int_beq_iff id id)

-- While the indices of every id grow and the id's last index is not the largest int32, setting a key of 16
-- bytes returns the next index, and afterwards each id and index has the key it had, but for this id and
-- this index, which have the new key.
pub set_session_key_lem :
    (m : SessionKeyManager) (id j i : ℤ) (key : List ℕ) (t u : ℕ)
    → IsManager m
    → HasRoom (last? (key_list id m))
    → length key ≡ 16
    → let n = next_index (key_list id m) in
      let (m', r, _) = set_session_key m id key t u in
      (r ≡ ok n) × (key_at m' j i ≡ (if id == j && n == i then some key else key_at m j i))
set_session_key_lem m id j i key t u v room h =
    let (returned, here, old, other, _) = set_session_key-key_at m id key t u v room h in
    let l = key_list id m in
    let n = next_index l in
    let m' = (set_session_key m id key t u).0 in
    (
      returned,
      elim (Bool-cases (id == j)) [
        | inr miss ↦
            rw miss
              (same_id id j i m m' (other j (λ e. absurd (cc (miss, (int_beq_iff id j).1 e)))))
        | inl hit ↦ rw hit (
            subst (λ (x : ℤ). key_at m' x i ≡ (if n == i then some key else key_at m x i))
              ((int_beq_iff id j).0 hit)
              (elim (Bool-cases (n == i)) [
                | inl same ↦
                    rw same
                      (subst (λ (x : ℤ). key_at m' id x ≡ some key) ((int_beq_iff n i).0 same) here)
                | inr differs ↦ rw differs (
                    ap (λ (x : SessionKeyManager). key_at x id i)
                      (set_session_key_16 m id key t u h).0
                    ∙ ap (λ (x : List SessionKey). key_bytes (find_key i x))
                        (key_list-touched m id (l ++ new_key n key t u ∷ []))
                    ∙ ap key_bytes (
                        find_key-append_other i l (new_key n key t u)
                          (λ e. absurd (cc (differs, (int_beq_iff n i).1 e)))))
              ]))
      ],
    )

-- While the indices of every id grow, after a removal each id and index has the key it had, but for this
-- id and this index, which have none.
pub remove_session_key_lem :
    (m : SessionKeyManager) (id x j i : ℤ)
    → IsManager m
    → key_at (remove_session_key m id x).0 j i ≡ (if id == j && x == i then none else key_at m j i)
remove_session_key_lem m id x j i v =
    let (gone, others, other, _) = remove_session_key-key_at m id x v in
    let m' = (remove_session_key m id x).0 in
    elim (Bool-cases (id == j)) [
      | inr miss ↦
          rw miss (same_id id j i m m' (other j (λ e. absurd (cc (miss, (int_beq_iff id j).1 e)))))
      | inl hit ↦ rw hit (
          subst (λ (y : ℤ). key_at m' y i ≡ (if x == i then none else key_at m y i))
            ((int_beq_iff id j).0 hit)
            (elim (Bool-cases (x == i)) [
              | inl same ↦
                  rw same (subst (λ (y : ℤ). key_at m' id y ≡ none) ((int_beq_iff x i).0 same) gone)
              | inr differs ↦
                  rw differs (others i (λ e. absurd (cc (differs, (int_beq_iff x i).1 (sym e)))))
            ]))
    ]

removed_newest :
    (m : SessionKeyManager) (id : ℤ) (key : List ℕ) (t u : ℕ)
    → IsManager m
    → HasRoom (last? (key_list id m))
    → length key ≡ 16
    → let m1 = (set_session_key m id key t u).0 in
      key_list id (remove_session_key m1 id (next_index (key_list id m))).0 ≡ key_list id m
removed_newest m id key t u v room h =
    let l = key_list id m in
    let n = next_index l in
    let m1 = with_key m id key t u in
    let new = l ++ new_key n key t u ∷ [] in
    let (fits, above) = next_index-Above l (v id) room in
    rw (set_session_key_16 m id key t u h).0 (
      ap (key_list id)
        (remove_found m1 id n (stored m id new) (without_key-newest l (new_key n key t u) above))
      ∙ key_list-touched m1 id l)

-- While the indices of every id grow and the id's last index is not the largest int32: an index is given
-- twice when its key, the newest one, is removed in between. The second key is then found under it.
pub index_reused :
    (m : SessionKeyManager) (id : ℤ) (key key' : List ℕ) (t u t' u' : ℕ)
    → IsManager m
    → HasRoom (last? (key_list id m))
    → length key ≡ 16
    → length key' ≡ 16
    → let n = next_index (key_list id m) in
      let (m1, r, _) = set_session_key m id key t u in
      let m2 = (remove_session_key m1 id n).0 in
      let (m3, r', _) = set_session_key m2 id key' t' u' in
      (r ≡ ok n) × (r' ≡ ok n) × (key_at m3 id n ≡ some key')
index_reused m id key key' t u t' u' v room h h' =
    let n = next_index (key_list id m) in
    let (returned, _, _, _, v1) = set_session_key-key_at m id key t u v room h in
    let m1 = (set_session_key m id key t u).0 in
    let (_, _, _, v2) = remove_session_key-key_at m1 id n v1 in
    let m2 = (remove_session_key m1 id n).0 in
    let back = removed_newest m id key t u v room h in
    let (returned', here, _, _, _) =
      set_session_key-key_at m2 id key' t' u' v2
        (subst (λ (l : List SessionKey). HasRoom (last? l)) (sym back) room) h' in
    let m3 = (set_session_key m2 id key' t' u').0 in
    let again : next_index (key_list id m2) ≡ n = ap next_index back in
    (
      returned,
      subst (λ (x : ℤ). (set_session_key m2 id key' t' u').1 ≡ ok x) again returned',
      subst (λ (x : ℤ). key_at m3 id x ≡ some key') again here,
    )
