-- ===== src/HiChain/Exchanged.antt =====
-- The answer of handleExchangeRequest as the peer reads it.
use dsoftbus_go.Base.{
  ◌-◌, nat_eq, ◌≡◌, inl, inr, true, ◌++◌, length, length-append, take, drop, take-append_exact,
  drop-append_exact, some, ok, Result-cases, arith,
}
use dsoftbus_go.Base.Text.{Bytes}
use dsoftbus_go.HiChain.Pake.{
  encrypt_aes_gcm, decrypt_aes_gcm, sign_ed25519, verify_ed25519_signature,
}
use dsoftbus_go.HiChain.Exchange.{exchange_server, server_auth_info, response_aad}
use dsoftbus_go.HiChain.{Primitives, Answers, HiChainHandle}

-- What GCM promises: what was sealed opens under the same key, nonce and additional data.
pub record IsAead (pr : Primitives) : Type 0 where
  pub open-seal :
      (key nonce text aad : Bytes)
      → pr.open_sealed key nonce (pr.seal key nonce text aad) aad ≡ some text

-- A private key signs what its public key verifies.
pub record IsKeyPair (pr : Primitives) (private_key public_key : Bytes) : Type 0 where
  pub public_size : length public_key ≡ 32
  pub verifies : (m : Bytes) → pr.verify public_key m (pr.sign private_key m) ≡ true

module _ (pr : Primitives) where
  -- What was encrypted decrypts under the same key and additional data.
  opens :
      (key nonce text aad c : Bytes)
      → IsAead pr
      → encrypt_aes_gcm pr key nonce text aad ≡ ok c
      → decrypt_aes_gcm pr key nonce c aad ≡ ok text
  unfolding encrypt_aes_gcm decrypt_aes_gcm
  opens key nonce text aad c law e = ground (arith, law.open-seal key (take 12 nonce) text aad)

  signed :
      (private_key public_key m s : Bytes)
      → IsKeyPair pr private_key public_key
      → sign_ed25519 pr private_key m ≡ ok s
      → (length s ≡ 64) × (verify_ed25519_signature pr public_key m s ≡ true)
  unfolding sign_ed25519 verify_ed25519_signature
  signed private_key public_key m s pair e =
      ground (arith, pair.verifies (pr.sha256 m), pair.public_size)

  -- The parts of an answer.
  answer_parts :
      (a : Answers) (h : HiChainHandle) (nonce info : Bytes)
      → a.nonce ≡ some nonce
      → exchange_server pr a h ≡ ok info
      → (signature : Bytes) × (cipher : Bytes) × (sign_ed25519 pr h.long_term_private_key
            (h.our_challenge ++ (h.peer_challenge ++ server_auth_info pr h))
          ≡ ok signature)
        × (encrypt_aes_gcm pr h.session_key nonce (server_auth_info pr h ++ signature) response_aad
            ≡ ok cipher)
        × (info ≡ nonce ++ cipher)
  unfolding exchange_server
  answer_parts a h nonce info en e =
      elim (Result-cases (
        sign_ed25519 pr h.long_term_private_key
          (h.our_challenge ++ (h.peer_challenge ++ server_auth_info pr h)))) [
            | inr (x, e1) ↦ absurd (ground arith)
            | inl (signature, e1) ↦
                elim (Result-cases (
                  encrypt_aes_gcm pr h.session_key nonce (server_auth_info pr h ++ signature)
                    response_aad)) [
                      | inr (x, e2) ↦ absurd (ground arith)
                      | inl (cipher, e2) ↦ (signature, cipher, e1, e2, ground arith)
                    ]
          ]

  -- A nonce of 12 bytes was drawn and handleExchangeRequest has made its answer with a key pair: a peer
  -- that has the session key opens the answer, cuts off the last 64 bytes, and finds the server's info
  -- before a signature over the server's challenge, its own and the info.
  pub answer_verifies :
      (a : Answers) (h : HiChainHandle) (nonce info : Bytes)
      → IsAead pr
      → IsKeyPair pr h.long_term_private_key h.long_term_public_key
      → a.nonce ≡ some nonce
      → length nonce ≡ 12
      → exchange_server pr a h ≡ ok info
      → (text : Bytes) × (decrypt_aes_gcm pr h.session_key
            (take 12 info)
            (drop 12 info)
            response_aad
          ≡ ok text)
        × (take (length text - 64) text ≡ server_auth_info pr h)
        × (verify_ed25519_signature pr h.long_term_public_key
              (h.our_challenge ++ (h.peer_challenge ++ server_auth_info pr h))
              (drop (length text - 64) text)
            ≡ true)
  answer_verifies a h nonce info law pair en size e =
      let (signature, cipher, e1, e2, e3) = answer_parts a h nonce info en e in
      let auth = server_auth_info pr h in
      let (sig_size, good) = signed _ _ _ signature pair e1 in
      let cut : length auth ≡ length (auth ++ signature) - 64 =
        omega (arith, length-append auth signature) in
      let opened : decrypt_aes_gcm pr h.session_key (take 12 info) (drop 12 info) response_aad
          ≡ ok (auth ++ signature) =
        rw (e3, take-append_exact 12 nonce cipher size, drop-append_exact 12 nonce cipher size)
          (opens h.session_key nonce _ response_aad cipher law e2) in
      (
        auth ++ signature,
        opened,
        take-append_exact _ auth signature cut,
        rw (drop-append_exact (length (auth ++ signature) - 64) auth signature cut) good,
      )
