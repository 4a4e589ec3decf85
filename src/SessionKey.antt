-- ===== src/SessionKey.antt =====
-- pkg/authentication/session_key_manager.go: SessionKeyManager. The clock, the random source and the
-- answers of the persistor are arguments. The calls of the persistor are results: the code only logs
-- their errors. The keys are behind pointers in Go: a lookup sets the time of last use in the list.
pub mod KeyLists
pub mod KeyRemoval
pub mod Rotation
pub mod Lookups
pub mod Encryption
pub mod LaterReads
pub mod Writes
pub mod Runs
use Prim.Native.Nat.{bit_or}
use dsoftbus_go.Base.{
  ℕ, ◌+◌, ◌*◌, ◌/◌, ◌%◌, ◌^◌, ◌==◌, nat_eq, if◌then◌else◌, ltb, Bool, true, false, List, [], ◌∷◌,
  ◌++◌, length, drop, last?, Option, none, some, Result, ok, err,
}
use dsoftbus_go.Base.Int.{ℤ, pos, negsuc, ◌+ℤ◌, uint32, int32, int_eq}
use dsoftbus_go.Base.Table.{Table, lookup, insert, delete}
use dsoftbus_go.Crypto.{Aead, CryptoError, encrypt_aes_gcm, decrypt_aes_gcm}

pub record SessionKey : Type 0 where
  pub index : ℤ
  pub key : List ℕ
  pub create_time : ℕ
  pub last_used : ℕ

pub record SessionKeyManager : Type 0 where
  pub keys : Table ℤ (List SessionKey)
  pub persistor : Bool

pub data KeyError : Type 0 where
  bad_length no_keys not_found no_persistor load_failed short_ciphertext : KeyError
  crypto_failed : CryptoError → KeyError

pub data PersistCall : Type 0 where
  saved : ℤ → List SessionKey → PersistCall
  deleted : ℤ → PersistCall

abbrev pub new_session_key_manager : SessionKeyManager
new_session_key_manager = record { keys = []; persistor = false }

unfoldable pub register_persistor : SessionKeyManager → SessionKeyManager
register_persistor m = record m { persistor = true }

-- `keyList[len(keyList)-1].Index + 1`, an int32 that wraps.
unfoldable pub next_index : List SessionKey → ℤ
next_index l = elim (last? l) [ none ↦ pos 0 | some k ↦ int32 (uint32 (k.index +ℤ pos 1)) ]

abbrev pub key_list : ℤ → SessionKeyManager → List SessionKey
key_list auth_id m = elim (lookup auth_id m.keys) [ none ↦ [] | some l ↦ l ]

abbrev pub persist_save : SessionKeyManager → ℤ → List SessionKey → List PersistCall
persist_save m auth_id l = if m.persistor then saved auth_id l ∷ [] else []

unfoldable pub set_session_key :
    SessionKeyManager
    → ℤ
    → List ℕ
    → ℕ
    → ℕ
    → SessionKeyManager × Result KeyError ℤ × List PersistCall
set_session_key m auth_id session_key create_time last_used =
    if length session_key == 16
    then (let old = key_list auth_id m in
        let index = next_index old in
        let l =
          old
          ++ record {
            index = index;
            key = session_key;
            create_time = create_time;
            last_used = last_used;
          }
            ∷ [] in
        (record m { keys = insert auth_id l m.keys }, ok index, persist_save m auth_id l))
    else (m, err bad_length, [])

-- The first key with the index.
unfoldable pub find_key : ℤ → List SessionKey → Option SessionKey
find_key i [] = none
find_key i (k ∷ l) = if k.index == i then some k else find_key i l

-- The same key after `key.LastUsed = time.Now()`.
unfoldable pub touch : ℤ → ℕ → List SessionKey → List SessionKey
touch i now [] = []
touch i now (k ∷ l) = if k.index == i then record k { last_used = now } ∷ l else k ∷ touch i now l

unfoldable pub touch_last : ℕ → List SessionKey → List SessionKey
touch_last now [] = []
touch_last now (k ∷ []) = record k { last_used = now } ∷ []
touch_last now (k ∷ k' ∷ l) = k ∷ touch_last now (k' ∷ l)

unfoldable pub get_session_key :
    SessionKeyManager → ℤ → ℤ → ℕ → SessionKeyManager × Result KeyError SessionKey
get_session_key m auth_id index now = elim (lookup auth_id m.keys) [
  | none ↦ (m, err no_keys)
  | some l ↦ elim (find_key index l) [
    | none ↦ (m, err not_found)
    | some k ↦ (
      record m { keys = insert auth_id (touch index now l) m.keys },
      ok (record k { last_used = now }),
    )
  ]
]

unfoldable pub get_latest_session_key :
    SessionKeyManager → ℤ → ℕ → SessionKeyManager × Result KeyError SessionKey
get_latest_session_key m auth_id now = elim (lookup auth_id m.keys) [
  | none ↦ (m, err no_keys)
  | some l ↦ elim (last? l) [
    | none ↦ (m, err no_keys)
    | some k ↦ (
      record m { keys = insert auth_id (touch_last now l) m.keys },
      ok (record k { last_used = now }),
    )
  ]
]

-- The list without the first key of the index; `none` if there is no such key.
unfoldable pub without_key : ℤ → List SessionKey → Option (List SessionKey)
without_key i [] = none
without_key i (k ∷ l) =
    let rest = without_key i l in
    if k.index == i then some l else (elim rest [ none ↦ none | some l' ↦ some (k ∷ l') ])

unfoldable pub remove_session_key : SessionKeyManager → ℤ → ℤ → SessionKeyManager × List PersistCall
remove_session_key m auth_id index = elim (lookup auth_id m.keys) [
  | none ↦ (m, [])
  | some l ↦ elim (without_key index l) [
    | none ↦ (m, [])
    | some l' ↦ (record m { keys = insert auth_id l' m.keys }, persist_save m auth_id l')
  ]
]

unfoldable pub remove_all_session_keys :
    SessionKeyManager → ℤ → SessionKeyManager × List PersistCall
remove_all_session_keys m auth_id =
    (record m { keys = delete auth_id m.keys }, if m.persistor then deleted auth_id ∷ [] else [])

unfoldable pub get_session_key_count : SessionKeyManager → ℤ → ℕ
get_session_key_count m auth_id = length (key_list auth_id m)

-- `answer` is what the persistor's Load returned: `none` for an error.
unfoldable pub load_from_persistor :
    SessionKeyManager
    → ℤ
    → Option (List SessionKey)
    → SessionKeyManager × Result KeyError (Unit {0})
load_from_persistor m auth_id answer =
    if m.persistor
    then (elim answer [
      | none ↦ (m, err load_failed)
      | some l ↦ (record m { keys = insert auth_id l m.keys }, ok tt)
    ])
    else (m, err no_persistor)

-- byte(i >> 24), byte(i >> 16), byte(i >> 8), byte(i): the bytes of the bit pattern.
abbrev pub index_bytes : ℤ → List ℕ
index_bytes i =
    let w = uint32 i in w / 2 ^ 24 % 256 ∷ w / 2 ^ 16 % 256 ∷ w / 2 ^ 8 % 256 ∷ w % 256 ∷ []

abbrev pub with_index : ℤ → Result CryptoError (List ℕ) → Result KeyError (List ℕ)
with_index i (ok encrypted) = ok (index_bytes i ++ encrypted)
with_index i (err e) = err (crypto_failed e)

unfoldable pub encrypt :
    Aead
    → SessionKeyManager
    → ℤ
    → List ℕ
    → Option (List ℕ)
    → ℕ
    → SessionKeyManager × Result KeyError (List ℕ)
encrypt a m auth_id plaintext iv now =
    let (m', found) = get_latest_session_key m auth_id now in
    (
      m',
      elim found [
        | err e ↦ err e
        | ok k ↦ with_index k.index (encrypt_aes_gcm a iv k.key plaintext)
      ],
    )

abbrev lift_crypto : Result CryptoError (List ℕ) → Result KeyError (List ℕ)
lift_crypto (ok plaintext) = ok plaintext
lift_crypto (err e) = err (crypto_failed e)

-- int32(c0)<<24 | int32(c1)<<16 | int32(c2)<<8 | int32(c3)
abbrev pub index_of_bytes : ℕ → ℕ → ℕ → ℕ → ℤ
index_of_bytes c0 c1 c2 c3 =
    int32 (bit_or (bit_or (bit_or (c0 * 2 ^ 24) (c1 * 2 ^ 16)) (c2 * 2 ^ 8)) c3)

unfoldable pub decrypt :
    Aead → SessionKeyManager → ℤ → List ℕ → ℕ → SessionKeyManager × Result KeyError (List ℕ)
decrypt a m auth_id (c0 ∷ c1 ∷ c2 ∷ c3 ∷ encrypted) now =
    let (m', found) = get_session_key m auth_id (index_of_bytes c0 c1 c2 c3) now in
    (m', elim found [ err e ↦ err e | ok k ↦ lift_crypto (decrypt_aes_gcm a k.key encrypted) ])
decrypt a m auth_id _ now = (m, err short_ciphertext)
