-- ===== src/HiChain/Confirmed.antt =====
-- When a session key is reported: handleAuthChallenge, and ReceiveData over every message type.
use dsoftbus_go.Base.{
  nat_eq, ◌≡◌, refl, sym, subst, ◌⊎◌, inl, inr, ◌==◌, List, [], ◌∷◌, ◌++◌, take, drop, none, some,
  ok, err, Bool-cases, Option-cases, Result-cases, arith,
}
use dsoftbus_go.Base.Int.{pos, int_eq, int_beq_iff}
use dsoftbus_go.Base.Text.{Bytes, list_eq, same_items_iff}
use dsoftbus_go.HiChain.Hex.{hex_to_bytes}
use dsoftbus_go.HiChain.Pake.{compute_x25519_shared_secret, derive_session_key, compute_kcf_data_v1}
use dsoftbus_go.HiChain.Handlers.{
  pake_keys, check_kcf, pake_start, handle_auth_start, handle_auth_confirm, confirmed_keys,
  handle_auth_challenge,
}
use dsoftbus_go.HiChain.Store.{DeviceAuthStore}
use dsoftbus_go.HiChain.Exchange.{
  clean_json_data, handle_exchange_request, exchange_client, long_term_keys, exchange_server,
}
use dsoftbus_go.HiChain.Dispatch.{handle_message, receive_data}
use dsoftbus_go.HiChain.{
  Primitives, Answers, HiChainHandle, AuthMessage, PakePayload, HcCall, Outcome, session_key_set,
  payload_nil,
}

-- The payload `p` proves to the handle `h` that its sender has the key: the secret comes of the handle's
-- private key and the sender's public key, and the proof is the hash of both challenges under the second
-- part of what is derived of it. The first part is the session key.
pub record IsProof (pr : Primitives) (h : HiChainHandle) (p : PakePayload) (key : Bytes)
    : Type 0 where
  pub epk : Bytes
  pub challenge : Bytes
  pub secret : Bytes
  pub union_key : Bytes
  pub kcf : Bytes
  pub has_epk : hex_to_bytes p.epk ≡ some epk
  pub has_challenge : hex_to_bytes p.challenge ≡ some challenge
  pub agreed : compute_x25519_shared_secret pr h.pake_esk epk ≡ ok secret
  pub derived : derive_session_key pr secret h.pake_salt 48 ≡ ok union_key
  pub key_part : key ≡ take 16 union_key
  pub has_kcf : hex_to_bytes p.kcf_data ≡ some kcf
  pub proved : kcf ≡ pr.hmac (take 32 (drop 16 union_key)) (challenge ++ h.our_challenge)

abbrev pub Reports : Bytes → List HcCall → Type 0
Reports key [] = ⊥
Reports key (c ∷ cs) = (c ≡ session_key_set key) ⊎ Reports key cs

module _ (pr : Primitives) where
  confirmed_keys-IsProof :
      (h h' : HiChainHandle) (p : PakePayload) (hmac_key : Bytes)
      → confirmed_keys pr h (some p) ≡ ok (h', hmac_key)
      → IsProof pr h p h'.session_key
  unfolding confirmed_keys pake_keys check_kcf compute_kcf_data_v1
  confirmed_keys-IsProof h h' p hmac_key e = elim (Option-cases (hex_to_bytes p.epk)) [
    | inl e1 ↦ absurd (ground arith)
    | inr (epk, e1) ↦ elim (Option-cases (hex_to_bytes p.challenge)) [
      | inl e2 ↦ absurd (ground arith)
      | inr (challenge, e2) ↦ elim (Result-cases (compute_x25519_shared_secret pr h.pake_esk epk)) [
        | inr (x, e3) ↦ absurd (ground arith)
        | inl (secret, e3) ↦ elim (Result-cases (derive_session_key pr secret h.pake_salt 48)) [
          | inr (x, e4) ↦ absurd (ground arith)
          | inl (union_key, e4) ↦ elim (Option-cases (hex_to_bytes p.kcf_data)) [
            | inl e5 ↦ absurd (ground arith)
            | inr (kcf, e5) ↦
                elim (Bool-cases
                  (pr.hmac (take 32 (drop 16 union_key)) (challenge ++ h.our_challenge) == kcf)) [
                    | inr e6 ↦ absurd (ground arith)
                    | inl e6 ↦ record {
                      epk = epk;
                      challenge = challenge;
                      secret = secret;
                      union_key = union_key;
                      kcf = kcf;
                      has_epk = e1;
                      has_challenge = e2;
                      agreed = e3;
                      derived = e4;
                      key_part = ground arith;
                      has_kcf = e5;
                      proved = sym ((same_items_iff _ _).0 e6);
                    }
                  ]
          ]
        ]
      ]
    ]
  ]

  confirmed_keys-none : (h : HiChainHandle) → confirmed_keys pr h none ≡ err (h, payload_nil)
  unfolding confirmed_keys
  confirmed_keys-none h = refl

  challenge-Reports :
      (a : Answers) (h : HiChainHandle) (msg : AuthMessage) (key : Bytes)
      → Reports key (handle_auth_challenge pr a h msg).1
      → (p : PakePayload) × (msg.payload ≡ some p) × IsProof pr h p key
  unfolding handle_auth_challenge
  challenge-Reports a h msg key r = elim (Option-cases msg.payload) [
    | inl e ↦ absurd (ground (arith, confirmed_keys-none h))
    | inr (p, e) ↦ elim (Result-cases (confirmed_keys pr h (some p))) [
      | inr (x, e') ↦ absurd (ground arith)
      | inl ((h', k), e') ↦
          let same : key ≡ h'.session_key = ground arith in
          (p, e, subst (IsProof pr h p) (sym same) (confirmed_keys-IsProof h h' p k e'))
    ]
  ]

  start-Reports :
      (a : Answers) (h : HiChainHandle) (msg : AuthMessage) (key : Bytes)
      → Reports key (handle_auth_start pr a h msg).1
      → ⊥
  unfolding handle_auth_start
  start-Reports a h msg key r = elim (Result-cases (pake_start pr a h msg)) [
    | inl (h', e) ↦ ground arith
    | inr (x, e) ↦ ground arith
  ]

  exchange-Reports :
      (a : Answers) (s : DeviceAuthStore) (h : HiChainHandle) (msg : AuthMessage) (key : Bytes)
      → Reports key (handle_exchange_request pr a s h msg).0.1
      → ⊥
  unfolding handle_exchange_request
  exchange-Reports a s h msg key r = elim (Result-cases (exchange_client pr h msg.payload)) [
    | inr (x, e1) ↦ ground arith
    | inl ((h1, pk, id), e1) ↦ elim (Result-cases (long_term_keys a s h1)) [
      | inr (x, e2) ↦ ground arith
      | inl ((h2, s2), e2) ↦ elim (Result-cases (exchange_server pr a h2)) [
        | inr (x, e3) ↦ ground arith
        | inl (info, e3) ↦ ground arith
      ]
    ]
  ]

  confirm-Reports :
      (h : HiChainHandle) (msg : AuthMessage) (key : Bytes)
      → Reports key (handle_auth_confirm h msg).1
      → ⊥
  unfolding handle_auth_confirm
  confirm-Reports h msg key r = ground arith

  -- A message that makes a key reported proves the key and has one of the two types.
  abbrev pub Proves : HiChainHandle → AuthMessage → Bytes → Type 0
  Proves h msg key =
      ((msg.message_type ≡ pos 2) ⊎ (msg.message_type ≡ pos 32769))
      × ((p : PakePayload) × (msg.payload ≡ some p) × IsProof pr h p key)

  message-Reports :
      (a : Answers) (s : DeviceAuthStore) (h : HiChainHandle) (msg : AuthMessage) (key : Bytes)
      → Reports key (handle_message pr a s h msg).0.1
      → Proves h msg key
  unfolding handle_message
  message-Reports a s h msg key r = elim (Bool-cases (msg.message_type == pos 2)) [
    | inl e ↦
        let same : handle_message pr a s h msg ≡ (handle_auth_challenge pr a h msg, s) =
          ground arith in
        (
          inl ((int_beq_iff _ _).0 e),
          challenge-Reports a h msg key (subst (λ o. Reports key o.0.1) same r),
        )
    | inr e ↦ elim (Bool-cases (msg.message_type == pos 32769)) [
      | inl e' ↦
          let same : handle_message pr a s h msg ≡ (handle_auth_challenge pr a h msg, s) =
            ground arith in
          (
            inr ((int_beq_iff _ _).0 e'),
            challenge-Reports a h msg key (subst (λ o. Reports key o.0.1) same r),
          )
      | inr e' ↦ absurd (
          ground (
            arith,
            start-Reports a h msg key,
            exchange-Reports a s h msg key,
            confirm-Reports h msg key,
          ))
    ]
  ]

  -- Whatever the state of the handle and whatever bytes arrive: when ReceiveData reports a session key to
  -- the upper layer, the bytes are a message of type 2 or 0x8001 whose payload proves that key, by the hash
  -- that only a holder of the derived keys can compute.
  pub reported_is_proved :
      (a : Answers) (s : DeviceAuthStore) (h : HiChainHandle) (raw key : Bytes) (o : Outcome)
      (s' : DeviceAuthStore)
      → receive_data pr a s (some h) raw ≡ some (o, s')
      → Reports key o.1
      → (msg : AuthMessage) × (pr.unmarshal (clean_json_data raw) ≡ some msg) × Proves h msg key
  unfolding receive_data
  reported_is_proved a s h raw key o s' e r =
      elim (Option-cases (pr.unmarshal (clean_json_data raw))) [
        | inl e' ↦ absurd (ground arith)
        | inr (msg, e') ↦
            let same : (o, s') ≡ handle_message pr a s h msg = ground arith in
            (
              msg,
              e',
              message-Reports a s h msg key
                  (subst (λ (x : Outcome × DeviceAuthStore). Reports key x.0.1) same r),
            )
      ]
