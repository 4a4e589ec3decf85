-- ===== src/SessionKey/Runs.antt =====
-- Concrete session keys, and the theorems at concrete inputs. The cipher of these runs only appends 16
-- bytes: it has the laws that the theorems use.
use dsoftbus_go.Base.{
  ℕ, ◌-◌, ◌≡◌, refl, ap, arith, if◌then◌else◌, ◌==◌, ◌&&◌, List, [], ◌∷◌, ◌++◌, length,
  length-append, take, take-append_exact, none, some, ok, err,
}
use dsoftbus_go.Base.Int.{pos, int_eq, uint32}
use dsoftbus_go.Base.Table.{lookup, insert}
use dsoftbus_go.Crypto.{Aead, IsAead, encrypt_aes_gcm}
use dsoftbus_go.SessionKey.{
  SessionKeyManager, new_session_key_manager, key_list, next_index, set_session_key, touch_last,
  get_latest_session_key, remove_session_key, encrypt, decrypt, bad_length,
}
use dsoftbus_go.SessionKey.Rotation.{IsManager, key_at, set_session_key-key_at}
use dsoftbus_go.SessionKey.Encryption.{set, done, then_step}
use dsoftbus_go.SessionKey.LaterReads.{decrypt_after_rotation}
use dsoftbus_go.SessionKey.Writes.{set_session_key_lem, remove_session_key_lem, index_reused}

abbrev key_a : List ℕ
key_a = 1 ∷ 2 ∷ 3 ∷ 4 ∷ 5 ∷ 6 ∷ 7 ∷ 8 ∷ 9 ∷ 10 ∷ 11 ∷ 12 ∷ 13 ∷ 14 ∷ 15 ∷ 16 ∷ []

abbrev key_b : List ℕ
key_b = 16 ∷ 15 ∷ 14 ∷ 13 ∷ 12 ∷ 11 ∷ 10 ∷ 9 ∷ 8 ∷ 7 ∷ 6 ∷ 5 ∷ 4 ∷ 3 ∷ 2 ∷ 1 ∷ []

abbrev tag_16 : List ℕ
tag_16 = 0 ∷ 0 ∷ 0 ∷ 0 ∷ 0 ∷ 0 ∷ 0 ∷ 0 ∷ 0 ∷ 0 ∷ 0 ∷ 0 ∷ 0 ∷ 0 ∷ 0 ∷ 0 ∷ []

abbrev iv_12 : List ℕ
iv_12 = 1 ∷ 1 ∷ 1 ∷ 1 ∷ 1 ∷ 1 ∷ 1 ∷ 1 ∷ 1 ∷ 1 ∷ 1 ∷ 1 ∷ []

abbrev tagging : Aead
tagging = record {
  seal = λ key iv plaintext. plaintext ++ tag_16;
  open_sealed = λ key iv ciphertext. some (take (length ciphertext - 16) ciphertext);
}

tagging-IsAead : IsAead tagging
tagging-IsAead = record {
  open-seal = λ key iv plaintext. ap some (
      take-append_exact (length (plaintext ++ tag_16) - 16) plaintext tag_16
        (omega (arith, length-append plaintext tag_16)));
  length-seal = λ key iv plaintext. length-append plaintext tag_16;
}

empty-IsManager : IsManager new_session_key_manager
unfolding lookup
empty-IsManager id = tt

-- The device 7 has one key.
abbrev one_key : SessionKeyManager
one_key = (set_session_key new_session_key_manager (pos 7) key_a 1 1).0

one_key-IsManager : IsManager one_key
unfolding lookup
one_key-IsManager =
    (set_session_key-key_at new_session_key_manager (pos 7) key_a 1 1 empty-IsManager tt refl).4

short_key : (set_session_key new_session_key_manager (pos 7) (1 ∷ []) 1 1).1 ≡ err bad_length
unfolding set_session_key
short_key = refl

-- The index 0, the nonce, the text and the tag.
abbrev hi_sealed : List ℕ
hi_sealed = (0 ∷ 0 ∷ 0 ∷ 0 ∷ []) ++ (iv_12 ++ ((104 ∷ 105 ∷ []) ++ tag_16))

hi_encrypted : (encrypt tagging one_key (pos 7) (104 ∷ 105 ∷ []) (some iv_12) 2).1 ≡ ok hi_sealed
unfolding encrypt set_session_key get_latest_session_key lookup insert next_index encrypt_aes_gcm
    uint32
hi_encrypted = refl

abbrev used_key : SessionKeyManager
used_key = (encrypt tagging one_key (pos 7) (104 ∷ 105 ∷ []) (some iv_12) 2).0

-- The message is read after a second key was set.
decrypt_after_rotation_example :
    (decrypt tagging (set_session_key used_key (pos 7) key_b 3 3).0 (pos 7) hi_sealed 4).1
    ≡ ok (104 ∷ 105 ∷ [])
unfolding encrypt set_session_key get_latest_session_key lookup insert next_index uint32 touch_last
decrypt_after_rotation_example =
    decrypt_after_rotation tagging one_key (set_session_key used_key (pos 7) key_b 3 3).0 (pos 7)
      (104 ∷ 105 ∷ []) iv_12 hi_sealed 2 4 tagging-IsAead refl one_key-IsManager hi_encrypted
      (then_step done (set used_key (pos 7) key_b 3 3 refl (λ e. absurd (cc e))))

set_session_key_lem_example :
    ((set_session_key one_key (pos 7) key_b 3 3).1 ≡ ok (next_index (key_list (pos 7) one_key)))
    × (key_at (set_session_key one_key (pos 7) key_b 3 3).0 (pos 7) (pos 0) ≡ (
        if pos 7 == pos 7 && next_index (key_list (pos 7) one_key) == pos 0
        then some key_b
        else key_at one_key (pos 7) (pos 0)))
unfolding set_session_key lookup insert next_index
set_session_key_lem_example =
    set_session_key_lem one_key (pos 7) (pos 7) (pos 0) key_b 3 3 one_key-IsManager
      (λ e. absurd (cc e)) refl

remove_session_key_lem_example :
    key_at (remove_session_key one_key (pos 7) (pos 0)).0 (pos 7) (pos 0)
    ≡ (if pos 7 == pos 7 && pos 0 == pos 0 then none else key_at one_key (pos 7) (pos 0))
remove_session_key_lem_example =
    remove_session_key_lem one_key (pos 7) (pos 0) (pos 7) (pos 0) one_key-IsManager

index_reused_example :
    let n = next_index (key_list (pos 7) one_key) in
    let (m1, r, _) = set_session_key one_key (pos 7) key_b 3 3 in
    let m2 = (remove_session_key m1 (pos 7) n).0 in
    let (m3, r', _) = set_session_key m2 (pos 7) key_a 4 4 in
    (r ≡ ok n) × (r' ≡ ok n) × (key_at m3 (pos 7) n ≡ some key_a)
unfolding set_session_key lookup insert next_index
index_reused_example =
    index_reused one_key (pos 7) key_b key_a 3 3 4 4 one_key-IsManager (λ e. absurd (cc e)) refl
      refl
