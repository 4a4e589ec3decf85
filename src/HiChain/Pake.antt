-- ===== src/HiChain/Pake.antt =====
-- pkg/device_auth/hichain/pake_v1_ec.go: the steps of the key agreement, over Primitives.
use Prim.Native.Nat.{bit_and, bit_or}
use dsoftbus_go.Base.{
  ℕ, ◌==◌, nat_eq, ltb, if◌then◌else◌, ◌&&◌, ◌||◌, Bool, [], ◌∷◌, ◌++◌, map, length, take, drop,
  Option, Result, ok, err, ◌>>=◌,
}
use dsoftbus_go.Base.Text.{Bytes}
use dsoftbus_go.HiChain.Field.{elligator_curve25519}
use dsoftbus_go.HiChain.{
  Primitives, HcError, empty_psk, hkdf_failed, elligator_failed, bad_private_key, bad_base_point,
  bad_peer_key, x25519_failed, bad_aes_key, bad_nonce, not_authentic, bad_signing_key,
  bad_signature_length, no_random, required,
}

-- "hichain_speke_base_info"
abbrev speke_base_info : Bytes
speke_base_info =
    104 ∷ 105 ∷ 99 ∷ 104 ∷ 97 ∷ 105 ∷ 110 ∷ 95 ∷ 115 ∷ 112 ∷ 101 ∷ 107 ∷ 101 ∷ 95 ∷ 98 ∷ 97 ∷ 115
    ∷ 101 ∷ 95 ∷ 105 ∷ 110 ∷ 102 ∷ 111 ∷ []

-- "hichain_speke_sessionkey_info"
abbrev speke_session_key_info : Bytes
speke_session_key_info =
    104 ∷ 105 ∷ 99 ∷ 104 ∷ 97 ∷ 105 ∷ 110 ∷ 95 ∷ 115 ∷ 112 ∷ 101 ∷ 107 ∷ 101 ∷ 95 ∷ 115 ∷ 101 ∷ 115
    ∷ 115 ∷ 105 ∷ 111 ∷ 110 ∷ 107 ∷ 101 ∷ 121 ∷ 95 ∷ 105 ∷ 110 ∷ 102 ∷ 111 ∷ []

-- `privateKey[31] &= 0xF8`, and of byte 0 the highest bit cleared and bit 6 set.
abbrev clamp : Bytes → Bytes
clamp key =
    map (λ b. bit_or (bit_and b 127) 64) (take 1 key)
    ++ (take 30 (drop 1 key) ++ map (λ b. bit_and b 248) (drop 31 key))

module _ (pr : Primitives) where
  unfoldable pub compute_x25519_base_point : Bytes → Bytes → Result HcError Bytes
  compute_x25519_base_point psk salt = if length psk == 0 then err empty_psk else do
    secret ← required hkdf_failed (pr.hkdf psk salt speke_base_info 32)
    required elligator_failed (elligator_curve25519 pr.mod_inverse secret)

  -- The point 9 that the standard library calls Basepoint.
  abbrev basepoint : Bytes
  basepoint =
      9 ∷ 0 ∷ 0 ∷ 0 ∷ 0 ∷ 0 ∷ 0 ∷ 0 ∷ 0 ∷ 0 ∷ 0 ∷ 0 ∷ 0 ∷ 0 ∷ 0 ∷ 0 ∷ 0 ∷ 0 ∷ 0 ∷ 0 ∷ 0 ∷ 0 ∷ 0 ∷ 0
      ∷ 0 ∷ 0 ∷ 0 ∷ 0 ∷ 0 ∷ 0 ∷ 0 ∷ 0 ∷ []

  -- The private key and the public key. The argument is what the random source gave.
  unfoldable pub generate_x25519_key_pair : Option Bytes → Result HcError (Bytes × Bytes)
  generate_x25519_key_pair random = do
    key ← required no_random random
    public_key ← required x25519_failed (pr.x25519 (clamp key) basepoint)
    ok (clamp key, public_key)

  unfoldable pub compute_x25519_public_key : Bytes → Bytes → Result HcError Bytes
  compute_x25519_public_key private_key base_point =
      if length private_key == 32
      then if length base_point == 32
        then required x25519_failed (pr.x25519 private_key base_point)
        else err bad_base_point
      else err bad_private_key

  unfoldable pub compute_x25519_shared_secret : Bytes → Bytes → Result HcError Bytes
  compute_x25519_shared_secret private_key peer_public_key =
      if length private_key == 32
      then if length peer_public_key == 32
        then required x25519_failed (pr.x25519 private_key peer_public_key)
        else err bad_peer_key
      else err bad_private_key

  unfoldable pub derive_session_key : Bytes → Bytes → ℕ → Result HcError Bytes
  derive_session_key shared_secret salt key_len =
      required hkdf_failed (pr.hkdf shared_secret salt speke_session_key_info key_len)

  -- Own challenge first to prove, the peer's first to verify.
  unfoldable pub compute_kcf_data_v1 : Bytes → Bytes → Bytes → Bool → Bytes
  compute_kcf_data_v1 hmac_key challenge_self challenge_peer is_generate_self = pr.hmac hmac_key (
      if is_generate_self
      then challenge_self ++ challenge_peer
      else challenge_peer ++ challenge_self)

  unfoldable pub encrypt_aes_gcm : Bytes → Bytes → Bytes → Bytes → Result HcError Bytes
  encrypt_aes_gcm key nonce plaintext aad =
      if length key == 16 || length key == 32
      then if ltb (length nonce) 12
        then err bad_nonce
        else ok (pr.seal key (take 12 nonce) plaintext aad)
      else err bad_aes_key

  unfoldable pub decrypt_aes_gcm : Bytes → Bytes → Bytes → Bytes → Result HcError Bytes
  decrypt_aes_gcm key nonce ciphertext aad =
      if length key == 16 || length key == 32
      then if ltb (length nonce) 12
        then err bad_nonce
        else required not_authentic (pr.open_sealed key (take 12 nonce) ciphertext aad)
      else err bad_aes_key

  unfoldable pub sign_ed25519 : Bytes → Bytes → Result HcError Bytes
  sign_ed25519 private_key message =
      if length private_key == 64
      then (let signature = pr.sign private_key (pr.sha256 message) in
          if length signature == 64 then ok signature else err bad_signature_length)
      else err bad_signing_key

  unfoldable pub verify_ed25519_signature : Bytes → Bytes → Bytes → Bool
  verify_ed25519_signature public_key message signature =
      (length public_key == 32 && length signature == 64)
      && pr.verify public_key (pr.sha256 message) signature
