-- ===== src/Crypto.antt =====
-- pkg/utils/crypto/aes_gcm.go. The cipher itself (crypto/aes, crypto/cipher) and the random source
-- are parameters; the laws of a cipher are hypotheses of the theorems that use them.
use dsoftbus_go.Base.{
  ℕ, ◌+◌, ◌≡◌, ◌==◌, nat_eq, if◌then◌else◌, ltb, Bool, ◌||◌, List, ◌++◌, length, take, drop, Option,
  none, some, Result, ok, err, length-append, take-append_exact, drop-append_exact, arith,
}

abbrev pub gcm_nonce_len : ℕ
gcm_nonce_len = 12

abbrev pub overhead_len : ℕ
overhead_len = 28

-- `seal key iv plaintext` and `open_sealed key iv ciphertext` of GCM with a 16 byte tag.
pub record Aead : Type 0 where
  pub seal : List ℕ → List ℕ → List ℕ → List ℕ
  pub open_sealed : List ℕ → List ℕ → List ℕ → Option (List ℕ)

-- What GCM promises: what was sealed opens under the same key and nonce, and the tag is 16 bytes.
pub record IsAead (a : Aead) : Type 0 where
  pub open-seal :
      (key iv plaintext : List ℕ) → a.open_sealed key iv (a.seal key iv plaintext) ≡ some plaintext
  pub length-seal :
      (key iv plaintext : List ℕ) → length (a.seal key iv plaintext) ≡ length plaintext + 16

pub data CryptoError : Type 0 where
  no_random bad_key too_short not_authentic : CryptoError

-- aes.NewCipher takes keys of 16, 24 or 32 bytes.
abbrev pub cipher_key : List ℕ → Bool
cipher_key key = length key == 16 || (length key == 24 || length key == 32)

-- `iv` is what the random source gave: `none` if it failed.
unfoldable pub encrypt_aes_gcm :
    Aead → Option (List ℕ) → List ℕ → List ℕ → Result CryptoError (List ℕ)
encrypt_aes_gcm a none key plaintext = err no_random
encrypt_aes_gcm a (some iv) key plaintext =
    if cipher_key key then ok (iv ++ a.seal key iv plaintext) else err bad_key

abbrev or_not_authentic : Option (List ℕ) → Result CryptoError (List ℕ)
or_not_authentic none = err not_authentic
or_not_authentic (some plaintext) = ok plaintext

unfoldable pub decrypt_aes_gcm : Aead → List ℕ → List ℕ → Result CryptoError (List ℕ)
decrypt_aes_gcm a key cipher_data =
    if ltb (length cipher_data) overhead_len
    then err too_short
    else if cipher_key key
    then or_not_authentic
        (a.open_sealed key (take gcm_nonce_len cipher_data) (drop gcm_nonce_len cipher_data))
    else err bad_key

-- What was encrypted with a nonce of 12 bytes decrypts under the same key.
pub decrypt-encrypt_aes_gcm :
    (a : Aead) (iv key plaintext c : List ℕ)
    → IsAead a
    → length iv ≡ 12
    → encrypt_aes_gcm a (some iv) key plaintext ≡ ok c
    → decrypt_aes_gcm a key c ≡ ok plaintext
unfolding encrypt_aes_gcm decrypt_aes_gcm
decrypt-encrypt_aes_gcm a iv key plaintext c law size e = ground (
  arith,
  length-append iv (a.seal key iv plaintext),
  law.length-seal key iv plaintext,
  take-append_exact 12 iv (a.seal key iv plaintext) size,
  drop-append_exact 12 iv (a.seal key iv plaintext) size,
  law.open-seal key iv plaintext,
)
