-- ===== src/SessionKey/Lookups.antt =====
-- GetSessionKey, GetLatestSessionKey and RemoveSessionKey: the keys that they return and leave.
use dsoftbus_go.Base.{
  ℕ, ◌≡◌, ◌≢◌, refl, ap, sym, ◌∙◌, arith, ◌==◌, List, [], last?, Option, none, some, Bool-cases,
  Option-cases, inl, inr, ◌⊎◌, Result, ok, err, nat_eq,
}
use dsoftbus_go.Base.Int.{ℤ, int_eq, int_beq_iff}
use dsoftbus_go.Base.Table.{lookup, insert}
use dsoftbus_go.SessionKey.{
  SessionKey, SessionKeyManager, KeyError, key_list, find_key, touch, touch_last, get_session_key,
  get_latest_session_key, without_key, remove_session_key, no_keys, not_found,
}
use dsoftbus_go.SessionKey.KeyLists.{
  IsOrdered, key_bytes, key_bytes-touch, key_bytes-touch_last, IsOrdered-touch,
  IsOrdered-touch_last,
}
use dsoftbus_go.SessionKey.KeyRemoval.{
  IsOrdered-without, find_key-without, find_key-without_other, without_key-none,
}
use dsoftbus_go.SessionKey.Rotation.{IsManager, key_at, key_list-insert, inserted-IsManager}

-- A write that keeps the key of every index keeps them for every id.
same_keys :
    (id : ℤ) (l l' : List SessionKey) (m : SessionKeyManager)
    → key_list id m ≡ l
    → ((i : ℤ) → key_bytes (find_key i l') ≡ key_bytes (find_key i l))
    → (j i : ℤ) → key_at (record m { keys = insert id l' m.keys }) j i ≡ key_at m j i
same_keys id l l' m e h j i = elim (Bool-cases (id == j)) [
  | inl hit ↦
      rw (key_list-insert id j l' m, hit)
        (h i
          ∙ ap (λ (x : List SessionKey). key_bytes (find_key i x))
              (sym e ∙ ap (λ (x : ℤ). key_list x m) ((int_beq_iff id j).0 hit)))
  | inr miss ↦ rw (key_list-insert id j l' m, miss) refl
]

-- The key bytes that a lookup returned.
abbrev pub returned_key : Result KeyError SessionKey → Option (List ℕ)
returned_key (ok k) = some k.key
returned_key (err e) = none

key_list-some :
    (m : SessionKeyManager) (id : ℤ) {l : List SessionKey}
    → lookup id m.keys ≡ some l
    → key_list id m ≡ l
key_list-some m id e = rw (e, key_list)

key_list-none : (m : SessionKeyManager) (id : ℤ) → lookup id m.keys ≡ none → key_list id m ≡ []
key_list-none m id e = rw (e, key_list)

abbrev touched : SessionKeyManager → ℤ → List SessionKey → SessionKeyManager
touched m id l = record m { keys = insert id l m.keys }

abbrev used_at : ℕ → SessionKey → SessionKey
used_at now k = record k { last_used = now }

-- What a lookup that returns `r` and leaves `m'` must satisfy, when it asks for the key `o`.
abbrev pub IsLookup :
    SessionKeyManager → Option (List ℕ) → SessionKeyManager × Result KeyError SessionKey → Type 0
IsLookup m o (m', r) =
    (returned_key r ≡ o) × ((j x : ℤ) → key_at m' j x ≡ key_at m j x) × IsManager m'

IsLookup-failed : (m : SessionKeyManager) (e : KeyError) → IsManager m → IsLookup m none (m, err e)
IsLookup-failed m e v = (refl, λ j x. refl, v)

get_found :
    (m : SessionKeyManager) (id i : ℤ) (now : ℕ) {l : List SessionKey} {k : SessionKey}
    → lookup id m.keys ≡ some l
    → find_key i l ≡ some k
    → get_session_key m id i now ≡ (touched m id (touch i now l), ok (used_at now k))
unfolding get_session_key
get_found m id i now e f = rw (e, get_session_key) (rw (f, get_session_key))

get_gone :
    (m : SessionKeyManager) (id i : ℤ) (now : ℕ)
    → key_at m id i ≡ none
    → (e : KeyError) × (get_session_key m id i now ≡ (m, err e))
unfolding get_session_key
get_gone m id i now h = elim (Option-cases (lookup id m.keys)) [
  | inl absent ↦ (no_keys, rw (absent, get_session_key))
  | inr (l, present) ↦ elim (Option-cases (find_key i l)) [
    | inl miss ↦ (not_found, rw (present, get_session_key) (rw (miss, get_session_key)))
    | inr (k, found) ↦ absurd (
        cc (
          h,
          ap (λ (x : List SessionKey). key_bytes (find_key i x)) (key_list-some m id present),
          ap key_bytes found,
        ))
  ]
]

key_bytes_nil : (i : ℤ) → key_bytes (find_key i []) ≡ none
unfolding find_key
key_bytes_nil i = refl

-- While the indices of every id grow, GetSessionKey returns the key under the index if there is one,
-- and an error if there is none. It changes no key of any id, and the indices still grow.
pub get_session_key-key_at :
    (m : SessionKeyManager) (id i : ℤ) (now : ℕ)
    → IsManager m
    → IsLookup m (key_at m id i) (get_session_key m id i now)
get_session_key-key_at m id i now v = elim (Option-cases (lookup id m.keys)) [
  | inl absent ↦ gone (
      ap (λ (x : List SessionKey). key_bytes (find_key i x)) (key_list-none m id absent)
      ∙ key_bytes_nil i)
  | inr (l, present) ↦ elim (Option-cases (find_key i l)) [
    | inl miss ↦ gone (
        ap (λ (x : List SessionKey). key_bytes (find_key i x)) (key_list-some m id present)
        ∙ ap key_bytes miss)
    | inr (k, found) ↦
        let at = key_list-some m id present in
        let new = touch i now l in
        rw (get_found m id i now present found) (
          sym (ap (λ (x : List SessionKey). key_bytes (find_key i x)) at ∙ ap key_bytes found),
          same_keys id l new m at (λ x. key_bytes-touch x i now l),
          inserted-IsManager id new m (IsOrdered-touch i now l (rw at at (v id))) v,
        )
  ]
]
  where
    gone : key_at m id i ≡ none → IsLookup m (key_at m id i) (get_session_key m id i now)
    gone h = let (e, p) = get_gone m id i now h in rw (h, p) (IsLookup-failed m e v)

abbrev pub latest_bytes : List SessionKey → Option (List ℕ)
latest_bytes l = key_bytes (last? l)

latest_found :
    (m : SessionKeyManager) (id : ℤ) (now : ℕ) {l : List SessionKey} {k : SessionKey}
    → lookup id m.keys ≡ some l
    → last? l ≡ some k
    → get_latest_session_key m id now ≡ (touched m id (touch_last now l), ok (used_at now k))
unfolding get_latest_session_key
latest_found m id now e f = rw (e, get_latest_session_key) (rw (f, get_latest_session_key))

latest_none :
    (m : SessionKeyManager) (id : ℤ) (now : ℕ)
    → last? (key_list id m) ≡ none
    → get_latest_session_key m id now ≡ (m, err no_keys)
unfolding get_latest_session_key
latest_none m id now h = elim (Option-cases (lookup id m.keys)) [
  | inl absent ↦ rw (absent, get_latest_session_key)
  | inr (l, present) ↦
      rw (present, get_latest_session_key)
        (rw (ap last? (sym (key_list-some m id present)) ∙ h, get_latest_session_key))
]

-- While the indices of every id grow, GetLatestSessionKey returns the newest key of the id if there
-- is one, and an error if there is none. It changes no key of any id, and the indices still grow.
pub get_latest-key_at :
    (m : SessionKeyManager) (id : ℤ) (now : ℕ)
    → IsManager m
    → IsLookup m (latest_bytes (key_list id m)) (get_latest_session_key m id now)
get_latest-key_at m id now v = elim (Option-cases (lookup id m.keys)) [
  | inl absent ↦ gone (ap last? (key_list-none m id absent))
  | inr (l, present) ↦ elim (Option-cases (last? l)) [
    | inl miss ↦ gone (ap last? (key_list-some m id present) ∙ miss)
    | inr (k, found) ↦
        let at = key_list-some m id present in
        let new = touch_last now l in
        rw (latest_found m id now present found) (
          sym (ap latest_bytes at ∙ ap key_bytes found),
          same_keys id l new m at (λ x. key_bytes-touch_last x now l),
          inserted-IsManager id new m (IsOrdered-touch_last now l (rw at at (v id))) v,
        )
  ]
]
  where
    gone :
        last? (key_list id m) ≡ none
        → IsLookup m (latest_bytes (key_list id m)) (get_latest_session_key m id now)
    gone h = rw (latest_none m id now h, h) (IsLookup-failed m no_keys v)

pub latest_cases :
    (m : SessionKeyManager) (id : ℤ) (now : ℕ)
    → (get_latest_session_key m id now ≡ (m, err no_keys))
      ⊎ ((k : SessionKey) × (last? (key_list id m) ≡ some k)
          × ((get_latest_session_key m id now).1 ≡ ok (used_at now k)))
latest_cases m id now = elim (Option-cases (lookup id m.keys)) [
  | inl absent ↦ inl (latest_none m id now (ap last? (key_list-none m id absent)))
  | inr (l, present) ↦
      let at = key_list-some m id present in
      elim (Option-cases (last? l)) [
        | inl miss ↦ inl (latest_none m id now (ap last? at ∙ miss))
        | inr (k, found) ↦
            inr (k, ap last? at ∙ found, rw (latest_found m id now present found) refl)
      ]
]

-- What taking out the key of the id under the index must leave.
abbrev pub IsRemoval : SessionKeyManager → ℤ → ℤ → SessionKeyManager → Type 0
IsRemoval m id i m' =
    (key_at m' id i ≡ none)
    × ((x : ℤ) → x ≢ i → key_at m' id x ≡ key_at m id x)
    × ((j : ℤ) → id ≢ j → key_list j m' ≡ key_list j m)
    × IsManager m'

pub remove_found :
    (m : SessionKeyManager) (id i : ℤ) {l l' : List SessionKey}
    → lookup id m.keys ≡ some l
    → without_key i l ≡ some l'
    → (remove_session_key m id i).0 ≡ touched m id l'
unfolding remove_session_key
remove_found m id i e f = rw (e, remove_session_key) (rw (f, remove_session_key) refl)

pub key_list-touched :
    (m : SessionKeyManager) (id : ℤ) (l : List SessionKey) → key_list id (touched m id l) ≡ l
key_list-touched m id l = rw (key_list-insert id id l m, (int_beq_iff id id).1 refl) refl

key_list_other :
    (m : SessionKeyManager) (id j : ℤ) (l : List SessionKey)
    → id ≢ j
    → key_list j (touched m id l) ≡ key_list j m
key_list_other m id j l ne = rw (key_list-insert id j l m) (ground (arith, int_beq_iff id j))

-- RemoveSessionKey takes out the key under the index: it is found no more, every other key of the id
-- and every other id stay as they were, and the order is kept.
pub remove_session_key-key_at :
    (m : SessionKeyManager) (id i : ℤ)
    → IsManager m
    → IsRemoval m id i (remove_session_key m id i).0
unfolding remove_session_key
remove_session_key-key_at m id i v = elim (Option-cases (lookup id m.keys)) [
  | inl absent ↦
      rw (absent, remove_session_key)
        (nothing (
          ap (λ (x : List SessionKey). key_bytes (find_key i x)) (key_list-none m id absent)
          ∙ key_bytes_nil i))
  | inr (l, present) ↦
      let at = key_list-some m id present in
      elim (Option-cases (without_key i l)) [
        | inl miss ↦
            rw (present, remove_session_key)
              (rw (miss, remove_session_key)
                (nothing (
                  ap (λ (x : List SessionKey). key_bytes (find_key i x)) at
                  ∙ ap key_bytes (without_key-none i l miss))))
        | inr (l', left) ↦
            let o : IsOrdered l = rw at at (v id) in
            rw (remove_found m id i present left) (
              rw (key_list-touched m id l') (ap key_bytes (find_key-without i l l' left o)),
              λ x ne. rw (key_list-touched m id l') (
                  ap key_bytes
                    (find_key-without_other x i l l' left ne ∙ ap (find_key x) (sym at))),
              λ j ne. key_list_other m id j l' ne,
              inserted-IsManager id l' m (IsOrdered-without i l l' left o) v,
            )
      ]
]
  where
    nothing : key_at m id i ≡ none → IsRemoval m id i m
    nothing h = (h, λ x ne. refl, λ j ne. refl, v)
