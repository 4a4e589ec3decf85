-- ===== src/BusCenter/Joins.antt =====
-- JoinLNN of pkg/bus_center/bus_center.go: who is told of a result.
use Prim.Native.String.{String}
use mathlib.Core.List.{Perm, perm_append_comm}
use mathlib.Core.List.Perm
use dsoftbus_go.Base.{
  arith, subst, ◌==◌, if◌then◌else◌, ℕ, ◌%◌, ◌^◌, nat_eq, nat_beq_iff, ◌≡◌, refl, sym, ap, ◌∙◌,
  true, List, [], ◌∷◌, ◌++◌, append_assoc, Option,
}
use dsoftbus_go.Base.Int.{ℤ}
use dsoftbus_go.AuthSession.{GroupAuthAnswers}
use dsoftbus_go.AuthManager.{AuthWorld}
use dsoftbus_go.BusCenter.{
  BusCenter, BusCall, AuthCallback, of_join, join_result, each_callback, failure_calls,
  notify_auth_failed, registered_join, register_auth_callback, join_lnn,
}

each-append :
    (calls : AuthCallback → List BusCall) (cs ds : List AuthCallback)
    → each_callback calls (cs ++ ds) ≡ each_callback calls cs ++ each_callback calls ds
unfolding each_callback
each-append calls [] ds = refl
each-append calls (c ∷ cs) ds =
    ap (λ (l : List BusCall). calls c ++ l) (each-append calls cs ds)
    ∙ sym (append_assoc (calls c) (each_callback calls cs) (each_callback calls ds))

-- What a join of this second is told of the failure of a request.
abbrev pub join_told : ℕ → ℕ → ℤ → List BusCall
join_told seconds request_id reason =
    if request_id == seconds % 2 ^ 32 then join_result request_id [] reason ∷ [] else []

last :
    (b : BusCenter) (seconds request_id : ℕ) (reason : ℤ)
    → each_callback (failure_calls request_id reason) (of_join (seconds % 2 ^ 32) true ∷ [])
      ≡ join_told seconds request_id reason
unfolding each_callback failure_calls
last b seconds request_id reason = ground (arith, nat_beq_iff request_id (seconds % 2 ^ 32))

told :
    (b : BusCenter) (seconds request_id : ℕ) (reason : ℤ)
    → notify_auth_failed (registered_join b seconds true) request_id reason
      ≡ notify_auth_failed b request_id reason ++ join_told seconds request_id reason
unfolding notify_auth_failed register_auth_callback each_callback failure_calls
told b seconds request_id reason =
    each-append (failure_calls request_id reason) b.auth_callbacks
      (of_join (seconds % 2 ^ 32) true ∷ [])
    ∙ ap
        (λ (l : List BusCall).
          each_callback (failure_calls request_id reason) b.auth_callbacks ++ l)
        (last b seconds request_id reason)

-- JoinLNN is called with callbacks at two times, to any addresses and with any outcome of opening the
-- connections. When any request is reported as failed, what is called is, in some order, what would be
-- called without the two joins, and each join's callback, once, just if the request is that join's: its
-- time in seconds modulo 2^32. So for two joins in the same second both callbacks are told of one failure.
pub joins_share_result :
    (a : GroupAuthAnswers) (b : BusCenter) (w w' : AuthWorld) (ip ip' : String) (port port' : ℤ)
    (seconds seconds' now now' : ℕ) (answer answer' : Option ℤ) (later later' request_id : ℕ)
    (reason : ℤ)
    → let b1 = (join_lnn a b w ip port true seconds now answer later).0 in
      let b2 = (join_lnn a b1 w' ip' port' true seconds' now' answer' later').0 in
      Perm (notify_auth_failed b2 request_id reason) (
        join_told seconds' request_id reason
        ++ (join_told seconds request_id reason ++ notify_auth_failed b request_id reason))
unfolding join_lnn
joins_share_result a b w w' ip ip' port port' seconds seconds' now now' answer answer' later later'
      request_id reason =
    let calls = notify_auth_failed b request_id reason in
    let one = join_told seconds request_id reason in
    let two = join_told seconds' request_id reason in
    let all =
      told (registered_join b seconds true) seconds' request_id reason
      ∙ ap (λ (l : List BusCall). l ++ two) (told b seconds request_id reason) in
    subst (λ (l : List BusCall). Perm l (two ++ (one ++ calls))) (sym all)
      (Perm.trans (perm_append_comm (calls ++ one) two)
        (Perm.append_left two (perm_append_comm calls one)))
