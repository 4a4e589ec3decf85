-- ===== src/HiChain/Proved.antt =====
-- handleAuthChallenge where the peer's proof is right.
use dsoftbus_go.Base.{
  nat_eq, ◌≡◌, refl, sym, ◌==◌, true, [], ◌∷◌, ◌++◌, take, drop, none, some, ok, arith,
}
use dsoftbus_go.Base.Text.{Bytes, list_eq, same_items_iff}
use dsoftbus_go.HiChain.Pake.{compute_kcf_data_v1}
use dsoftbus_go.HiChain.Handlers.{
  pake_keys, check_kcf, confirmed_keys, server_confirm, handle_auth_challenge,
}
use dsoftbus_go.HiChain.Confirmed.{IsProof}
use dsoftbus_go.HiChain.{
  Primitives, Answers, HiChainHandle, AuthMessage, PakePayload, transmitted, session_key_set,
  state_authenticating,
}

module _ (pr : Primitives) where
  -- The handle after it has checked a proof.
  abbrev pub confirmed_handle : HiChainHandle → Bytes → Bytes → Bytes → Bytes → HiChainHandle
  confirmed_handle h epk challenge secret key = record h {
    pake_peer_epk = epk;
    peer_challenge = challenge;
    pake_shared_sec = secret;
    session_key = key;
  }

  -- The proof is found right.
  pub IsProof-confirmed :
      (h : HiChainHandle) (p : PakePayload) (key : Bytes) (v : IsProof pr h p key)
      → confirmed_keys pr h (some p)
        ≡ ok (confirmed_handle h v.epk v.challenge v.secret key, take 32 (drop 16 v.union_key))
  unfolding confirmed_keys pake_keys check_kcf compute_kcf_data_v1
  IsProof-confirmed h p key v =
      let right : (pr.hmac (take 32 (drop 16 v.union_key)) (v.challenge ++ h.our_challenge)
            == v.kcf)
          ≡ true =
        (same_items_iff _ _).1 (sym v.proved) in
      rw (v.has_epk, v.has_challenge, v.agreed, v.derived, v.has_kcf, right, v.key_part) refl

  -- The outcome of a proof that is right.
  pub proved_outcome :
      (a : Answers) (h : HiChainHandle) (msg : AuthMessage) (p : PakePayload) (key : Bytes)
      (v : IsProof pr h p key)
      → msg.payload ≡ some p
      → a.sent ≡ true
      → let h' = record (confirmed_handle h v.epk v.challenge v.secret key) {
        state = state_authenticating;
      } in
        handle_auth_challenge pr a h msg ≡ (
          h',
          session_key_set key
              ∷ transmitted (pr.marshal (server_confirm pr h' (take 32 (drop 16 v.union_key))))
              ∷ [],
          none,
        )
  unfolding handle_auth_challenge
  proved_outcome a h msg p key v em es = ground (arith, IsProof-confirmed h p key v)
