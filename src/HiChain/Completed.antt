-- ===== src/HiChain/Completed.antt =====
-- When HiChain reports success to the upper layer.
use dsoftbus_go.Base.{
  ◌-◌, nat_eq, ◌≡◌, sym, subst, ◌⊎◌, inl, inr, ◌==◌, true, List, [], ◌∷◌, ◌++◌, length, take, drop,
  Option, none, some, ok, Bool-cases, Option-cases, Result-cases, arith,
}
use dsoftbus_go.Base.Int.{pos, int_eq, int_beq_iff}
use dsoftbus_go.Base.Text.{Bytes, is_empty, list_eq}
use dsoftbus_go.HiChain.Hex.{hex_to_bytes}
use dsoftbus_go.HiChain.Pake.{decrypt_aes_gcm, verify_ed25519_signature}
use dsoftbus_go.HiChain.Handlers.{
  pake_start, confirmed_keys, handle_auth_start, handle_auth_challenge, handle_auth_confirm,
}
use dsoftbus_go.HiChain.Store.{DeviceAuthStore}
use dsoftbus_go.HiChain.Exchange.{
  clean_json_data, handle_exchange_request, exchange_client, request_aad,
}
use dsoftbus_go.HiChain.Dispatch.{handle_message, receive_data}
use dsoftbus_go.HiChain.{
  Primitives, Answers, AuthInfo, HiChainHandle, AuthMessage, PakePayload, HcCall, Outcome,
  service_result, hc_ok, state_completed,
}

abbrev pub Succeeds : List HcCall → Type 0
Succeeds [] = ⊥
Succeeds (c ∷ cs) = (c ≡ service_result hc_ok) ⊎ Succeeds cs

-- The payload opens under the handle's session key to an info and a signature, and the signature over
-- both challenges and the info verifies with the key that the info names.
pub record IsSigned (pr : Primitives) (h : HiChainHandle) (p : PakePayload) : Type 0 where
  pub sealed : Bytes
  pub plaintext : Bytes
  pub info : AuthInfo
  pub auth_pk : Bytes
  pub public_key : Bytes
  pub has_sealed : hex_to_bytes p.ex_auth_info ≡ some sealed
  pub opened :
      decrypt_aes_gcm pr h.session_key (take 12 sealed) (drop 12 sealed) request_aad ≡ ok plaintext
  pub has_info :
      pr.unmarshal_auth_info (clean_json_data (take (length plaintext - 64) plaintext)) ≡ some info
  pub has_auth_pk : info.auth_pk ≡ some auth_pk
  pub has_public_key : hex_to_bytes auth_pk ≡ some public_key
  pub verified :
      verify_ed25519_signature pr public_key
        (h.peer_challenge ++ (h.our_challenge ++ take (length plaintext - 64) plaintext))
        (drop (length plaintext - 64) plaintext)
      ≡ true

module _ (pr : Primitives) where
  client-IsSigned :
      (h h' : HiChainHandle) (p : PakePayload) (key id : Bytes)
      → exchange_client pr h (some p) ≡ ok (h', key, id)
      → IsSigned pr h p
  unfolding exchange_client
  client-IsSigned h h' p key id e = elim (Bool-cases (is_empty p.ex_auth_info)) [
    | inl e0 ↦ absurd (ground arith)
    | inr e0 ↦ elim (Option-cases (hex_to_bytes p.ex_auth_info)) [
      | inl e1 ↦ absurd (ground arith)
      | inr (sealed, e1) ↦
          elim (Result-cases
            (decrypt_aes_gcm pr h.session_key (take 12 sealed) (drop 12 sealed) request_aad)) [
              | inr (x, e2) ↦ absurd (ground arith)
              | inl (plain, e2) ↦
                  elim (Option-cases
                    (pr.unmarshal_auth_info (clean_json_data (take (length plain - 64) plain)))) [
                      | inl e3 ↦ absurd (ground arith)
                      | inr (info, e3) ↦ elim (Option-cases info.auth_pk) [
                        | inl e4 ↦ absurd (ground arith)
                        | inr (pk, e4) ↦ elim (Option-cases (hex_to_bytes pk)) [
                          | inl e5 ↦ absurd (ground arith)
                          | inr (pub_key, e5) ↦
                              let text = take (length plain - 64) plain in
                              elim (Bool-cases (
                                verify_ed25519_signature pr pub_key
                                  (h.peer_challenge ++ (h.our_challenge ++ text))
                                  (drop (length plain - 64) plain))) [
                                    | inr e6 ↦ absurd (ground arith)
                                    | inl e6 ↦ record {
                                      sealed = sealed;
                                      plaintext = plain;
                                      info = info;
                                      auth_pk = pk;
                                      public_key = pub_key;
                                      has_sealed = e1;
                                      opened = e2;
                                      has_info = e3;
                                      has_auth_pk = e4;
                                      has_public_key = e5;
                                      verified = e6;
                                    }
                                  ]
                        ]
                      ]
                    ]
            ]
    ]
  ]

  start-Succeeds :
      (a : Answers) (h : HiChainHandle) (msg : AuthMessage)
      → Succeeds (handle_auth_start pr a h msg).1
      → ⊥
  unfolding handle_auth_start
  start-Succeeds a h msg r = elim (Result-cases (pake_start pr a h msg)) [
    | inl (h', e) ↦ ground arith
    | inr (x, e) ↦ ground arith
  ]

  challenge-Succeeds :
      (a : Answers) (h : HiChainHandle) (msg : AuthMessage)
      → Succeeds (handle_auth_challenge pr a h msg).1
      → ⊥
  unfolding handle_auth_challenge
  challenge-Succeeds a h msg r = elim (Result-cases (confirmed_keys pr h msg.payload)) [
    | inl ((h', k), e) ↦ ground arith
    | inr (x, e) ↦ ground arith
  ]

  confirm-Succeeds :
      (h : HiChainHandle) (msg : AuthMessage)
      → Succeeds (handle_auth_confirm h msg).1
      → msg.result ≡ hc_ok
  unfolding handle_auth_confirm
  confirm-Succeeds h msg r = ground arith

  none-client :
      (h : HiChainHandle) (x : HiChainHandle × Bytes × Bytes) → exchange_client pr h none ≡ ok x → ⊥
  unfolding exchange_client
  none-client h x e = cc

  exchange-Succeeds :
      (a : Answers) (s : DeviceAuthStore) (h : HiChainHandle) (msg : AuthMessage)
      → Succeeds (handle_exchange_request pr a s h msg).0.1
      → (p : PakePayload) × (msg.payload ≡ some p) × IsSigned pr h p
  unfolding handle_exchange_request
  exchange-Succeeds a s h msg r = elim (Result-cases (exchange_client pr h msg.payload)) [
    | inr (x, e1) ↦ absurd (ground arith)
    | inl ((h1, pk, id), e1) ↦ elim (Option-cases msg.payload) [
      | inl e2 ↦ absurd (none-client h (h1, pk, id) (rw (sym e2) e1))
      | inr (p, e2) ↦ (
        p,
        e2,
        client-IsSigned h h1 p pk id
            (subst (λ (x : Option PakePayload). exchange_client pr h x ≡ ok (h1, pk, id)) e2 e1),
      )
    ]
  ]

  -- What makes a message end the authentication: it says so itself, or it is an exchange that is signed.
  abbrev pub Ends : HiChainHandle → AuthMessage → Type 0
  Ends h msg =
      (((msg.message_type ≡ pos 4) ⊎ (msg.message_type ≡ pos 32770)) × (msg.result ≡ hc_ok))
      ⊎ ((msg.message_type ≡ pos 3)
          × ((p : PakePayload) × (msg.payload ≡ some p) × IsSigned pr h p))

  message-Succeeds :
      (a : Answers) (s : DeviceAuthStore) (h : HiChainHandle) (msg : AuthMessage)
      → Succeeds (handle_message pr a s h msg).0.1
      → Ends h msg
  unfolding handle_message
  message-Succeeds a s h msg r = elim (Bool-cases (msg.message_type == pos 3)) [
    | inr e ↦
        ground (arith, start-Succeeds a h msg, challenge-Succeeds a h msg, confirm-Succeeds h msg)
    | inl e ↦ elim (Option-cases msg.payload) [
      | inl e' ↦ absurd (ground arith)
      | inr (p, e') ↦
          let same : handle_message pr a s h msg ≡ handle_exchange_request pr a s h msg =
            ground arith in
          inr (
            (int_beq_iff _ _).0 e,
            exchange-Succeeds a s h msg
                (subst (λ (x : Outcome × DeviceAuthStore). Succeeds x.0.1) same r),
          )
    ]
  ]

  -- Whatever the state of the handle and whatever bytes arrive: when ReceiveData reports success, the bytes
  -- are a message of type 4 or 0x8002 with result 0, or an exchange request whose signature over both
  -- challenges verifies under the key that it names and that came encrypted with the session key.
  pub success_is_confirmed_or_signed :
      (a : Answers) (s : DeviceAuthStore) (h : HiChainHandle) (raw : Bytes) (o : Outcome)
      (s' : DeviceAuthStore)
      → receive_data pr a s (some h) raw ≡ some (o, s')
      → Succeeds o.1
      → (msg : AuthMessage) × (pr.unmarshal (clean_json_data raw) ≡ some msg) × Ends h msg
  unfolding receive_data
  success_is_confirmed_or_signed a s h raw o s' e r =
      elim (Option-cases (pr.unmarshal (clean_json_data raw))) [
        | inl e' ↦ absurd (ground arith)
        | inr (msg, e') ↦
            let same : (o, s') ≡ handle_message pr a s h msg = ground arith in
            (
              msg,
              e',
              message-Succeeds a s h msg
                  (subst (λ (x : Outcome × DeviceAuthStore). Succeeds x.0.1) same r),
            )
      ]

  -- The first of the two asks nothing of the handle: a message of type 4 or 0x8002 with result 0, the value
  -- of a field that is left out, completes a handle in any state and reports success. No key was agreed on
  -- and none is reported.
  pub confirm_completes :
      (a : Answers) (s : DeviceAuthStore) (h : HiChainHandle) (raw : Bytes) (msg : AuthMessage)
      → pr.unmarshal (clean_json_data raw) ≡ some msg
      → (msg.message_type ≡ pos 4) ⊎ (msg.message_type ≡ pos 32770)
      → msg.result ≡ hc_ok
      → receive_data pr a s (some h) raw
        ≡ some ((record h { state = state_completed }, service_result hc_ok ∷ [], none), s)
  unfolding receive_data handle_message handle_auth_confirm
  confirm_completes a s h raw msg e (inl t) z = ground arith
  confirm_completes a s h raw msg e (inr t) z = ground arith
