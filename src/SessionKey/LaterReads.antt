-- ===== src/SessionKey/LaterReads.antt =====
-- Encrypt and Decrypt: a message is read back with the key that it names.
use dsoftbus_go.Base.{
  ℕ, ◌≡◌, refl, ap, sym, ◌∙◌, subst, arith, List, [], ◌∷◌, ◌++◌, last?, length, some, Result-cases,
  inl, inr, Result, ok, err,
}
use dsoftbus_go.Base.Int.{ℤ, negsuc, IsInt32, int_eq}
use dsoftbus_go.Crypto.{Aead, IsAead, encrypt_aes_gcm, decrypt_aes_gcm, decrypt-encrypt_aes_gcm}
use dsoftbus_go.SessionKey.{
  SessionKey, SessionKeyManager, KeyError, key_list, with_index, get_session_key,
  get_latest_session_key, encrypt, decrypt, index_bytes, index_of_bytes,
}
use dsoftbus_go.SessionKey.KeyLists.{IsOrdered, find_key-last, key_bytes}
use dsoftbus_go.SessionKey.Rotation.{IsManager, key_at}
use dsoftbus_go.SessionKey.Lookups.{
  returned_key, get_session_key-key_at, get_latest-key_at, latest_cases,
}
use dsoftbus_go.SessionKey.Encryption.{KeySteps, index_of-index_bytes, KeySteps-keep}

-- The index that the four bytes in front of an encrypted message stand for.
abbrev pub message_index : List ℕ → ℤ
message_index (c0 ∷ c1 ∷ c2 ∷ c3 ∷ encrypted) = index_of_bytes c0 c1 c2 c3
message_index _ = negsuc 0

ok-injective : {a b : List ℕ} → ◌≡◌ {A = Result KeyError (List ℕ)} (ok a) (ok b) → a ≡ b
ok-injective e = cc

-- A message that was encrypted carries the newest key's index and is sealed with that key.
encrypted_with :
    (a : Aead) (m : SessionKeyManager) (id : ℤ) (p iv c : List ℕ) (now : ℕ)
    → (encrypt a m id p (some iv) now).1 ≡ ok c
    → (k : SessionKey) × (encrypted : List ℕ) × (last? (key_list id m) ≡ some k)
      × (c ≡ index_bytes k.index ++ encrypted)
      × (encrypt_aes_gcm a (some iv) k.key p ≡ ok encrypted)
unfolding encrypt
encrypted_with a m id p iv c now e = elim (latest_cases m id now) [
  | inl gone ↦ absurd (cc (rw (gone, encrypt) at e))
  | inr (k, newest, found) ↦
      let e' = rw (found, encrypt) at e in
      elim (Result-cases (encrypt_aes_gcm a (some iv) k.key p)) [
        | inl (encrypted, sealed) ↦
            (k, encrypted, newest, ok-injective (sym e' ∙ ap (with_index k.index) sealed), sealed)
        | inr (x, failed) ↦ absurd (cc (rw (failed, encrypt) at e'))
      ]
]

returned-ok :
    (r : Result KeyError SessionKey) (key : List ℕ)
    → returned_key r ≡ some key
    → (k : SessionKey) × (r ≡ ok k) × (k.key ≡ key)
returned-ok (ok k) key e = (k, refl, ground arith)
returned-ok (err x) key e = absurd (cc e)

decrypted_with :
    (a : Aead) (m : SessionKeyManager) (id i : ℤ) (key p encrypted : List ℕ) (now : ℕ)
    → IsManager m
    → IsInt32 i
    → key_at m id i ≡ some key
    → decrypt_aes_gcm a key encrypted ≡ ok p
    → (decrypt a m id (index_bytes i ++ encrypted) now).1 ≡ ok p
unfolding decrypt
decrypted_with a m id i key p encrypted now v f e d =
    let (k, found, same) =
      returned-ok (get_session_key m id i now).1 key
        ((get_session_key-key_at m id i now v).0 ∙ e) in
    rw (decrypt, index_of-index_bytes i f, found) (rw (same, d) refl)

newest_in_order :
    (k : SessionKey) (l : List SessionKey) → IsOrdered l → last? l ≡ some k → IsInt32 k.index
newest_in_order k [] o e = absurd (cc e)
newest_in_order k (x ∷ []) (f, _, _) e = ground (arith, f)
newest_in_order k (x ∷ y ∷ l) (f, a, o) e = newest_in_order k (y ∷ l) o e

-- Take a manager whose indices grow and an authenticated cipher. A message that Encrypt encrypted with
-- a nonce of 12 bytes is read back by Decrypt at any later time: after any sets of keys of 16 bytes (of
-- this id or others, while the last index is not the largest int32), any lookups, and any removals of
-- keys other than the one that the message's first four bytes name.
pub decrypt_after_rotation :
    (a : Aead) (m m' : SessionKeyManager) (id : ℤ) (p iv c : List ℕ) (now later : ℕ)
    → IsAead a
    → length iv ≡ 12
    → IsManager m
    → (encrypt a m id p (some iv) now).1 ≡ ok c
    → KeySteps id (message_index c) (encrypt a m id p (some iv) now).0 m'
    → (decrypt a m' id c later).1 ≡ ok p
unfolding encrypt
decrypt_after_rotation a m m' id p iv c now later law size v e steps =
    let (k, encrypted, newest, made, sealed) = encrypted_with a m id p iv c now e in
    let fits = newest_in_order k (key_list id m) (v id) newest in
    let i : message_index c ≡ k.index = ap message_index made ∙ index_of-index_bytes k.index fits in
    let (_, same, v1) = get_latest-key_at m id now v in
    let here : key_at m id k.index ≡ some k.key =
      ap key_bytes (find_key-last (key_list id m) k (v id) newest) in
    let steps' = subst (λ (x : ℤ). KeySteps id x (get_latest_session_key m id now).0 m') i steps in
    let (v', kept) = KeySteps-keep id k.index k.key steps' (v1, same id k.index ∙ here) in
    rw made (
      decrypted_with a m' id k.index k.key p encrypted later v' fits kept
        (decrypt-encrypt_aes_gcm a iv k.key p encrypted law size sealed))
