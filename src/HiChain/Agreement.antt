-- ===== src/HiChain/Agreement.antt =====
-- PAKE between handleAuthStart and handleAuthChallenge on one side and a peer that follows the protocol on
-- the other.
use dsoftbus_go.Base.{
  nat_eq, ◌≡◌, refl, ap, sym, subst, ◌∙◌, true, List, [], ◌∷◌, ◌++◌, take, drop, All, none, some,
  ok, arith,
}
use dsoftbus_go.Base.Bytes.{IsByte}
use dsoftbus_go.Base.Text.{Bytes, list_eq}
use dsoftbus_go.HiChain.Hex.{hex_to_bytes, bytes_to_hex, hex_to_bytes-bytes_to_hex}
use dsoftbus_go.HiChain.Pake.{
  compute_x25519_base_point, compute_x25519_public_key, compute_x25519_shared_secret,
  derive_session_key, compute_kcf_data_v1,
}
use dsoftbus_go.HiChain.Handlers.{pin_of, pake_response, handle_auth_start, handle_auth_challenge}
use dsoftbus_go.HiChain.Confirmed.{IsProof}
use dsoftbus_go.HiChain.{
  Primitives, Answers, HiChainHandle, ProtocolParams, AuthMessage, PakePayload, HcCall, no_payload,
  transmitted, session_key_set, state_authenticating, message_of, msg_type_pake_server_confirm,
}
use dsoftbus_go.HiChain.Started.{
  IsDh, IsStarted, public_key_made, secret_made, make_secret, started,
}
use dsoftbus_go.HiChain.Proved.{confirmed_handle, proved_outcome}

-- A peer that knows the PIN and has read the response `r`.
pub record IsHonest (pr : Primitives) (pin : Bytes) (r : PakePayload) : Type 0 where
  pub salt : Bytes
  pub server_epk : Bytes
  pub server_challenge : Bytes
  pub has_salt : hex_to_bytes r.salt ≡ some salt
  pub has_epk : hex_to_bytes r.epk ≡ some server_epk
  pub has_challenge : hex_to_bytes r.challenge ≡ some server_challenge
  pub esk : Bytes
  pub challenge : Bytes
  pub base : Bytes
  pub epk : Bytes
  pub secret : Bytes
  pub union_key : Bytes
  pub base_ok : compute_x25519_base_point pr pin salt ≡ ok base
  pub epk_ok : compute_x25519_public_key pr esk base ≡ ok epk
  pub secret_ok : compute_x25519_shared_secret pr esk server_epk ≡ ok secret
  pub union_ok : derive_session_key pr secret salt 48 ≡ ok union_key
  pub challenge_bytes : All IsByte challenge

-- What such a peer sends back.
abbrev pub honest_payload :
    (pr : Primitives) (pin : Bytes) (r : PakePayload) → IsHonest pr pin r → PakePayload
honest_payload pr pin r c = record no_payload {
  epk = bytes_to_hex c.epk;
  challenge = bytes_to_hex c.challenge;
  kcf_data =
      bytes_to_hex (pr.hmac (take 32 (drop 16 c.union_key)) (c.challenge ++ c.server_challenge));
}

module _ (pr : Primitives) where
  -- The peer's secret is the handle's.
  secrets_agree :
      (law : IsDh pr) (a : Answers) (h : HiChainHandle) (pin : Bytes) (r : PakePayload)
      (s : IsStarted pr a h) (c : IsHonest pr pin r)
      → pin ≡ pin_of s.params
      → c.salt ≡ h.pake_salt
      → c.server_epk ≡ h.pake_epk
      → compute_x25519_shared_secret pr h.pake_esk c.epk ≡ ok c.secret
  secrets_agree law a h pin r s c e1 e2 e3 =
      let (size, own) = public_key_made pr _ _ _ s.epk_ok in
      let (size', theirs) = public_key_made pr _ _ _ c.epk_ok in
      let same_base : c.base ≡ h.pake_base = cc in
      let theirs' : pr.x25519 c.esk h.pake_base ≡ some c.epk =
        subst (λ (x : Bytes). pr.x25519 c.esk x ≡ some c.epk) same_base theirs in
      let made : pr.x25519 c.esk h.pake_epk ≡ some c.secret =
        subst (λ (x : Bytes). pr.x25519 c.esk x ≡ some c.secret) e3
          (secret_made pr _ _ _ c.secret_ok) in
      make_secret pr _ _ _ size (law.point_size _ _ _ theirs)
        (law.commutes _ _ _ _ _ own theirs' ∙ made)

  -- What was written in hex reads back.
  same_bytes :
      (hex bs read : Bytes)
      → All IsByte bs
      → hex ≡ bytes_to_hex bs
      → hex_to_bytes hex ≡ some read
      → read ≡ bs
  same_bytes hex bs read v e e' =
      let back : hex_to_bytes (bytes_to_hex bs) ≡ some bs = hex_to_bytes-bytes_to_hex bs v in cc

  -- The honest peer's message proves its key.
  honest-IsProof :
      (law : IsDh pr) (a : Answers) (h : HiChainHandle) (pin : Bytes) (r : PakePayload)
      (s : IsStarted pr a h) (c : IsHonest pr pin r)
      → pin ≡ pin_of s.params
      → c.salt ≡ h.pake_salt
      → c.server_epk ≡ h.pake_epk
      → c.server_challenge ≡ h.our_challenge
      → IsProof pr h (honest_payload pr pin r c) (take 16 c.union_key)
  unfolding compute_kcf_data_v1
  honest-IsProof law a h pin r s c e1 e2 e3 e4 = record {
    epk = c.epk;
    challenge = c.challenge;
    secret = c.secret;
    union_key = c.union_key;
    kcf = pr.hmac (take 32 (drop 16 c.union_key)) (c.challenge ++ c.server_challenge);
    has_epk =
        hex_to_bytes-bytes_to_hex c.epk
          (law.point_bytes _ _ _ (public_key_made pr _ _ _ c.epk_ok).1);
    has_challenge = hex_to_bytes-bytes_to_hex c.challenge c.challenge_bytes;
    agreed = secrets_agree law a h pin r s c e1 e2 e3;
    derived =
        subst (λ (x : Bytes). derive_session_key pr c.secret x 48 ≡ ok c.union_key) e2 c.union_ok;
    key_part = refl;
    has_kcf = hex_to_bytes-bytes_to_hex _ (law.hmac_bytes _ _);
    proved = ap (λ (x : Bytes). pr.hmac (take 32 (drop 16 c.union_key)) (c.challenge ++ x)) e4;
  }

  -- The confirmation that the peer waits for: the hash of the handle's challenge and its own, in this order,
  -- under the last 32 of the 48 bytes that it derived.
  abbrev pub awaited :
      (h : HiChainHandle) (pin : Bytes) (r : PakePayload) → IsHonest pr pin r → AuthMessage
  awaited h pin r c = record (message_of msg_type_pake_server_confirm) {
    request_id = h.request_id;
    payload = some (record no_payload {
      kcf_data =
          bytes_to_hex
            (pr.hmac (take 32 (drop 16 c.union_key)) (c.server_challenge ++ c.challenge));
    });
  }

  -- A PAKE request was answered without an error, and a peer that has the same PIN has read the answer,
  -- whose salt and challenge are bytes. When its message reaches handleAuthChallenge and the reply can be
  -- sent, there is no error; the first 16 of the 48 bytes that the peer derived are reported as the session
  -- key and stored, and the one message that is sent is the confirmation of the request whose proof is the
  -- hash of the handle's challenge and the peer's, in this order, under the other 32 bytes.
  pub honest_peer_is_confirmed :
      (law : IsDh pr) (a a' : Answers) (h h1 : HiChainHandle) (req msg : AuthMessage)
      (calls : List HcCall) (params : ProtocolParams) (r : PakePayload)
      (c : IsHonest pr (pin_of params) r)
      → handle_auth_start pr a h req ≡ (h1, calls, none)
      → a.params ≡ some params
      → (pake_response h1 req).payload ≡ some r
      → All IsByte h1.pake_salt
      → All IsByte h1.our_challenge
      → msg.payload ≡ some (honest_payload pr (pin_of params) r c)
      → a'.sent ≡ true
      → (h2 : HiChainHandle) × (handle_auth_challenge pr a' h1 msg ≡ (
        h2,
        session_key_set (take 16 c.union_key)
            ∷ transmitted (pr.marshal (awaited h1 (pin_of params) r c))
            ∷ [],
        none,
      ))
        × (h2.state ≡ state_authenticating)
        × (h2.session_key ≡ take 16 c.union_key)
  unfolding compute_kcf_data_v1 honest-IsProof
  honest_peer_is_confirmed law a a' h h1 req msg calls params r c e ep er vs vc em es =
      let (s, _) = started pr a h h1 req calls e in
      let same_params : params ≡ s.params = let k = s.has_params in cc in
      let e2 = same_bytes r.salt h1.pake_salt c.salt vs (ground arith) c.has_salt in
      let e3 =
        same_bytes r.epk h1.pake_epk c.server_epk
          (law.point_bytes _ _ _ (public_key_made pr _ _ _ s.epk_ok).1) (ground arith) c.has_epk in
      let e4 =
        same_bytes r.challenge h1.our_challenge c.server_challenge vc (ground arith)
          c.has_challenge in
      let v = honest-IsProof law a h1 (pin_of params) r s c (ap pin_of same_params) e2 e3 e4 in
      let confirm : Bytes → AuthMessage = λ (x : Bytes).
        record (message_of msg_type_pake_server_confirm) {
          request_id = h1.request_id;
          payload = some (record no_payload {
            kcf_data = bytes_to_hex (pr.hmac (take 32 (drop 16 c.union_key)) (x ++ c.challenge));
          });
        } in
      let h2 = record (confirmed_handle pr h1 c.epk c.challenge c.secret (take 16 c.union_key)) {
        state = state_authenticating;
      } in
      (
        h2,
        proved_outcome pr a' h1 msg _ _ v em es
            ∙ ap
                (λ (x : Bytes). (
                  h2,
                  session_key_set (take 16 c.union_key) ∷ transmitted (pr.marshal (confirm x)) ∷ [],
                  none,
                ))
                (sym e4),
        refl,
        refl,
      )
