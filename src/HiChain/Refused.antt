-- ===== src/HiChain/Refused.antt =====
-- ReceiveData where the peer's proof is wrong, and a confirmation after it.
use dsoftbus_go.Base.{
  none, ◌∷◌, ap, refl, ◌∙◌, ◌⊎◌, nat_eq, ◌≡◌, sym, ◌≢◌, inl, inr, ◌==◌, [], ◌++◌, take, drop, some,
  ok, Bool-cases, arith,
}
use dsoftbus_go.Base.Int.{int_eq}
use dsoftbus_go.Base.Text.{Bytes, list_eq, same_items_iff}
use dsoftbus_go.HiChain.Hex.{hex_to_bytes}
use dsoftbus_go.HiChain.Pake.{compute_x25519_shared_secret, derive_session_key, compute_kcf_data_v1}
use dsoftbus_go.HiChain.Handlers.{
  handle_auth_confirm, pake_keys, check_kcf, confirmed_keys, handle_auth_challenge,
}
use dsoftbus_go.HiChain.Proved.{confirmed_handle}
use dsoftbus_go.HiChain.Store.{DeviceAuthStore}
use dsoftbus_go.HiChain.Exchange.{clean_json_data}
use dsoftbus_go.HiChain.Dispatch.{handle_message, receive_data, get_state, get_session_key}
use dsoftbus_go.HiChain.{
  Primitives, Answers, HiChainHandle, AuthMessage, PakePayload, Outcome, kcf_mismatch,
  service_result, hc_ok, state_completed, msg_type_auth_challenge, msg_type_pake_response,
  msg_type_auth_confirm, msg_type_pake_server_confirm,
}

-- What a peer sends that can be read, and whose keys can be derived, but whose proof is not the hash of its
-- challenge and the handle's under the derived key.
pub record IsRefuted (pr : Primitives) (h : HiChainHandle) (p : PakePayload) : Type 0 where
  pub epk : Bytes
  pub challenge : Bytes
  pub secret : Bytes
  pub union_key : Bytes
  pub kcf : Bytes
  pub has_epk : hex_to_bytes p.epk ≡ some epk
  pub has_challenge : hex_to_bytes p.challenge ≡ some challenge
  pub agreed : compute_x25519_shared_secret pr h.pake_esk epk ≡ ok secret
  pub derived : derive_session_key pr secret h.pake_salt 48 ≡ ok union_key
  pub has_kcf : hex_to_bytes p.kcf_data ≡ some kcf
  pub wrong : kcf ≢ pr.hmac (take 32 (drop 16 union_key)) (challenge ++ h.our_challenge)

module _ (pr : Primitives) where
  refuted :
      (a : Answers) (h : HiChainHandle) (msg : AuthMessage) (p : PakePayload) (v : IsRefuted pr h p)
      → msg.payload ≡ some p
      → handle_auth_challenge pr a h msg ≡ (
        confirmed_handle pr h v.epk v.challenge v.secret (take 16 v.union_key),
        [],
        some kcf_mismatch,
      )
  unfolding handle_auth_challenge confirmed_keys pake_keys check_kcf compute_kcf_data_v1
  refuted a h msg p v em =
      elim (Bool-cases
        (pr.hmac (take 32 (drop 16 v.union_key)) (v.challenge ++ h.our_challenge) == v.kcf)) [
          | inl e ↦ absurd (v.wrong (sym ((same_items_iff _ _).0 e)))
          | inr e ↦
              rw (em, handle_auth_challenge)
                (rw (v.has_epk, v.has_challenge, v.agreed, v.derived, v.has_kcf) (rw e refl))
        ]

  challenge_handled :
      (a : Answers) (s : DeviceAuthStore) (h : HiChainHandle) (msg : AuthMessage)
      → (msg.message_type ≡ msg_type_auth_challenge) ⊎ (msg.message_type ≡ msg_type_pake_response)
      → handle_message pr a s h msg ≡ (handle_auth_challenge pr a h msg, s)
  unfolding handle_message
  challenge_handled a s h msg t = ground arith

  confirm_handled :
      (a : Answers) (s : DeviceAuthStore) (h : HiChainHandle) (msg : AuthMessage)
      → (msg.message_type ≡ msg_type_auth_confirm)
        ⊎ (msg.message_type ≡ msg_type_pake_server_confirm)
      → msg.result ≡ hc_ok
      → handle_message pr a s h msg
        ≡ ((record h { state = state_completed }, service_result hc_ok ∷ [], none), s)
  unfolding handle_message handle_auth_confirm
  confirm_handled a s h msg t e = ground arith

  received :
      (a : Answers) (s : DeviceAuthStore) (h : HiChainHandle) (raw : Bytes) (msg : AuthMessage)
      → pr.unmarshal (clean_json_data raw) ≡ some msg
      → receive_data pr a s (some h) raw ≡ some (handle_message pr a s h msg)
  unfolding receive_data
  received a s h raw msg e = rw (e, receive_data) refl

  -- A peer sends two messages to a handle in any state. The first is a challenge or a PAKE response that
  -- can be read, and whose keys can be derived, but whose proof is wrong; the second is a confirmation with
  -- result 0. ReceiveData refuses the first with an error, calls nothing and keeps the state, but
  -- GetSessionKey then returns the first 16 of the bytes that were derived with the refuted peer. It
  -- accepts the second: it reports HCOk, the handle is completed, and GetSessionKey still returns that key.
  pub refuted_key_is_kept :
      (a a' : Answers) (s : DeviceAuthStore) (h : HiChainHandle) (raw raw' : Bytes)
      (msg msg' : AuthMessage) (p : PakePayload) (v : IsRefuted pr h p)
      → pr.unmarshal (clean_json_data raw) ≡ some msg
      → (msg.message_type ≡ msg_type_auth_challenge) ⊎ (msg.message_type ≡ msg_type_pake_response)
      → msg.payload ≡ some p
      → pr.unmarshal (clean_json_data raw') ≡ some msg'
      → (msg'.message_type ≡ msg_type_auth_confirm)
        ⊎ (msg'.message_type ≡ msg_type_pake_server_confirm)
      → msg'.result ≡ hc_ok
      → (h1 : HiChainHandle) × (h2 : HiChainHandle) × (receive_data pr a s (some h) raw
          ≡ some ((h1, [], some kcf_mismatch), s))
        × (get_state (some h1) ≡ h.state)
        × (get_session_key (some h1) ≡ take 16 v.union_key)
        × (receive_data pr a' s (some h1) raw' ≡ some ((h2, service_result hc_ok ∷ [], none), s))
        × (get_state (some h2) ≡ state_completed)
        × (get_session_key (some h2) ≡ take 16 v.union_key)
  refuted_key_is_kept a a' s h raw raw' msg msg' p v u t em u' t' ok_result =
      let h1 = confirmed_handle pr h v.epk v.challenge v.secret (take 16 v.union_key) in
      (
        h1,
        record h1 { state = state_completed },
        received a s h raw msg u
            ∙ ap (λ (o : Outcome × DeviceAuthStore). some o) (challenge_handled a s h msg t)
            ∙ ap (λ (o : Outcome). some (o, s)) (refuted a h msg p v em),
        refl,
        refl,
        received a' s h1 raw' msg' u'
            ∙ ap (λ (o : Outcome × DeviceAuthStore). some o)
                (confirm_handled a' s h1 msg' t' ok_result),
        refl,
        refl,
      )
