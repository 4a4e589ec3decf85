-- ===== src/HiChain/Started.antt =====
-- What handleAuthStart leaves behind, and the points of X25519.
use dsoftbus_go.Base.{
  nat_eq, ◌≡◌, ap, subst, ◌∙◌, inl, inr, List, [], ◌∷◌, length, All, none, some, ok, Bool-cases,
  Option-cases, Result-cases, arith,
}
use dsoftbus_go.Base.Bytes.{IsByte}
use dsoftbus_go.Base.Text.{Bytes, is_empty, list_eq}
use dsoftbus_go.HiChain.Pake.{
  compute_x25519_base_point, generate_x25519_key_pair, compute_x25519_public_key,
  compute_x25519_shared_secret,
}
use dsoftbus_go.HiChain.Handlers.{pin_of, pake_start, pake_response, handle_auth_start}
use dsoftbus_go.HiChain.{
  Primitives, Answers, HiChainHandle, ProtocolParams, AuthMessage, HcCall, transmitted,
  state_authenticating,
}

-- point has 32 of them.
pub record IsDh (pr : Primitives) : Type 0 where
  pub commutes :
      (a b base pa pb : Bytes)
      → pr.x25519 a base ≡ some pa
      → pr.x25519 b base ≡ some pb
      → pr.x25519 a pb ≡ pr.x25519 b pa
  pub point_size : (a b c : Bytes) → pr.x25519 a b ≡ some c → length c ≡ 32
  pub point_bytes : (a b c : Bytes) → pr.x25519 a b ≡ some c → All IsByte c
  pub hmac_bytes : (k m : Bytes) → All IsByte (pr.hmac k m)

-- What handleAuthStart has stored when it succeeds.
pub record IsStarted (pr : Primitives) (a : Answers) (h : HiChainHandle) : Type 0 where
  pub params : ProtocolParams
  pub has_params : a.params ≡ some params
  pub has_salt : a.salt ≡ some h.pake_salt
  pub has_challenge : a.challenge ≡ some h.our_challenge
  pub base_ok : compute_x25519_base_point pr (pin_of params) h.pake_salt ≡ ok h.pake_base
  pub epk_ok : compute_x25519_public_key pr h.pake_esk h.pake_base ≡ ok h.pake_epk

module _ (pr : Primitives) where
  pub public_key_made :
      (esk base epk : Bytes)
      → compute_x25519_public_key pr esk base ≡ ok epk
      → (length esk ≡ 32) × (pr.x25519 esk base ≡ some epk)
  unfolding compute_x25519_public_key
  public_key_made esk base epk e = elim (Option-cases (pr.x25519 esk base)) [
    | inl e' ↦ absurd (ground arith)
    | inr (x, e') ↦ (ground arith, ground arith)
  ]

  pub secret_made :
      (esk epk secret : Bytes)
      → compute_x25519_shared_secret pr esk epk ≡ ok secret
      → pr.x25519 esk epk ≡ some secret
  unfolding compute_x25519_shared_secret
  secret_made esk epk secret e = elim (Option-cases (pr.x25519 esk epk)) [
    | inl e' ↦ absurd (ground arith)
    | inr (x, e') ↦ ground arith
  ]

  pub make_secret :
      (esk epk secret : Bytes)
      → length esk ≡ 32
      → length epk ≡ 32
      → pr.x25519 esk epk ≡ some secret
      → compute_x25519_shared_secret pr esk epk ≡ ok secret
  unfolding compute_x25519_shared_secret
  make_secret esk epk secret l l' e = ground arith

  start-IsStarted :
      (a : Answers) (h h' : HiChainHandle) (msg : AuthMessage)
      → pake_start pr a h msg ≡ ok h'
      → IsStarted pr a h'
  unfolding pake_start
  start-IsStarted a h h' msg e = elim (Option-cases a.params) [
    | inl e1 ↦ absurd (ground arith)
    | inr (ps, e1) ↦ elim (Bool-cases (is_empty ps.self_auth_id)) [
      | inl e2 ↦ absurd (ground arith)
      | inr e2 ↦ elim (Option-cases a.salt) [
        | inl e3 ↦ absurd (ground arith)
        | inr (salt, e3) ↦ elim (Result-cases (compute_x25519_base_point pr (pin_of ps) salt)) [
          | inr (x, e4) ↦ absurd (ground arith)
          | inl (base, e4) ↦ elim (Result-cases (generate_x25519_key_pair pr a.private_bytes)) [
            | inr (x, e5) ↦ absurd (ground arith)
            | inl ((esk, pk), e5) ↦ elim (Result-cases (compute_x25519_public_key pr esk base)) [
              | inr (x, e6) ↦ absurd (ground arith)
              | inl (epk, e6) ↦ elim (Option-cases a.challenge) [
                | inl e7 ↦ absurd (ground arith)
                | inr (c, e7) ↦
                    let salt_is : salt ≡ h'.pake_salt = ground arith in
                    let base_is : base ≡ h'.pake_base = ground arith in
                    let esk_is : esk ≡ h'.pake_esk = ground arith in
                    let epk_is : epk ≡ h'.pake_epk = ground arith in
                    let challenge_is : c ≡ h'.our_challenge = ground arith in
                    record {
                      params = ps;
                      has_params = e1;
                      has_salt = cc;
                      has_challenge = cc;
                      base_ok = cc;
                      epk_ok = cc;
                    }
              ]
            ]
          ]
        ]
      ]
    ]
  ]

  -- After a PAKE request was answered, what the handle has and what it has sent.
  pub started :
      (a : Answers) (h h1 : HiChainHandle) (req : AuthMessage) (calls : List HcCall)
      → handle_auth_start pr a h req ≡ (h1, calls, none)
      → IsStarted pr a h1 × (calls ≡ transmitted (pr.marshal (pake_response h1 req)) ∷ [])
  unfolding handle_auth_start
  started a h h1 req calls e = elim (Result-cases (pake_start pr a h req)) [
    | inr (x, e') ↦ absurd (ground arith)
    | inl (h0, e') ↦
        let v = start-IsStarted a h h0 req e' in
        elim (Bool-cases a.sent) [
          | inr e2 ↦ absurd (ground arith)
          | inl e2 ↦
              let same : record h0 { state = state_authenticating } ≡ h1 = ground arith in
              let sent : calls ≡ transmitted (pr.marshal (pake_response h0 req)) ∷ [] =
                ground arith in
              (
                subst (IsStarted pr a) same (record {
                  params = v.params;
                  has_params = v.has_params;
                  has_salt = v.has_salt;
                  has_challenge = v.has_challenge;
                  base_ok = v.base_ok;
                  epk_ok = v.epk_ok;
                }),
                sent
                    ∙ ap
                        (λ (x : HiChainHandle). transmitted (pr.marshal (pake_response x req)) ∷ [])
                        same,
              )
        ]
  ]
