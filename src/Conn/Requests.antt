-- ===== src/Conn/Requests.antt =====
-- Which request a client connection is matched with (onAuthSocketConnected, ConnectAuthDevice).
use dsoftbus_go.Base.{
  ℕ, ◌≡◌, ◌≢◌, ◌≤◌, ◌<◌, refl, ap, arith, ltb, ltb→lt, true, false, List, [], ◌∷◌, Option, none,
  some, All, Bool-cases, inl, inr, ◌⊎◌, Result, ok, nat_eq, nat_beq_iff,
}
use dsoftbus_go.Base.Int.{ℤ, pos, uint32, int32, int_eq}
use dsoftbus_go.Base.Table.{Table, insert}
use dsoftbus_go.Types.{AuthConnInfo, gen_conn_id}
use dsoftbus_go.Conn.{
  ConnectRequest, AuthConnectionManager, ConnError, ConnEvent, establish, earliest_from,
  client_connected, on_auth_socket_connected, connect_auth_device, connect_result, report_result,
  with_request,
}

abbrev pub Request : Type 0
Request = ℕ × ConnectRequest

abbrev pub IsPending : Request → Table ℕ ConnectRequest → Type 0
IsPending r [] = ⊥
IsPending r (x ∷ t) = (r ≡ x) ⊎ IsPending r t

-- No request of the table started before this one.
abbrev pub IsEarliest : Request → Table ℕ ConnectRequest → Type 0
IsEarliest r = All (λ (x : Request). r.1.start_time ≤ x.1.start_time)

-- What the loop returns when it starts with a match.
abbrev IsMatch : Request → Table ℕ ConnectRequest → Request → Type 0
IsMatch start t r = IsPending r (start ∷ t) × (r.1.start_time ≤ start.1.start_time) × IsEarliest r t

earliest_from-some :
    (t : Table ℕ ConnectRequest) (start : Request)
    → (r : Request) × (earliest_from (some start) t ≡ some r) × IsMatch start t r
unfolding earliest_from
earliest_from-some [] start = (start, refl, (inl refl, omega arith, tt))
earliest_from-some (x ∷ t) start = elim (Bool-cases (ltb x.1.start_time start.1.start_time)) [
  | inl before ↦
      let (r, e, m) = earliest_from-some t x in
      let less = ltb→lt x.1.start_time start.1.start_time before in
      (r, rw before e, (inr m.0, omega (arith, less, m.1), (m.1, m.2)))
  | inr after ↦
      let (r, e, m) = earliest_from-some t start in
      (r, rw after e, (later m.0, m.1, (omega (arith, m.1, not_less after), m.2)))
]
  where
    not_less : ltb x.1.start_time start.1.start_time ≡ false → start.1.start_time ≤ x.1.start_time
    not_less h = ground arith

    later : {r : Request} → IsPending r (start ∷ t) → IsPending r (start ∷ x ∷ t)
    later (inl same) = inl same
    later (inr m) = inr (inr m)

-- A client connection is matched with a request exactly when one is pending. The match is pending, and no
-- pending request started before it.
pub earliest_from_lem :
    (t : Table ℕ ConnectRequest)
    → ((t ≡ []) × (earliest_from none t ≡ none))
      ⊎ ((r : Request) × (earliest_from none t ≡ some r) × IsPending r t × IsEarliest r t)
unfolding earliest_from
earliest_from_lem [] = inl (refl, refl)
earliest_from_lem (x ∷ t) = let (r, e, m) = earliest_from-some t x in inr (r, e, m.0, (m.1, m.2))

client_matched :
    (m : AuthConnectionManager) (fd : ℤ) (now : ℕ) (r : Request)
    → earliest_from none m.requests ≡ some r
    → client_connected m fd now ≡ establish m fd now r
unfolding client_connected
client_matched m fd now r e = rw (e, client_connected) refl

abbrev answered :
    AuthConnectionManager × List ConnEvent
    → Option AuthConnectionManager × List ConnEvent × Result ConnError (Unit {0})
answered p = (some p.0, p.1, ok tt)

-- A connected socket serves the request that it is matched with.
pub connect_matched :
    (m : AuthConnectionManager) (id : ℕ) (info : AuthConnInfo) (t now : ℕ) (fd : ℤ) (r : Request)
    → earliest_from none (with_request m id info t).requests ≡ some r
    → connect_auth_device (some m) id (some info) t (some fd) now ≡ (
      some (establish (with_request m id info t) fd now r).0,
      (establish (with_request m id info t) fd now r).1,
      ok tt,
    )
unfolding connect_auth_device on_auth_socket_connected
connect_matched m id info t now fd r e =
    ap (λ (p : AuthConnectionManager × List ConnEvent). answered p)
      (client_matched (with_request m id info t) fd now r e)

two_pending :
    (m : AuthConnectionManager) (id id' : ℕ) (info info' : AuthConnInfo) (t t' : ℕ)
    → m.requests ≡ []
    → id ≢ id'
    → t < t'
    → earliest_from none (with_request (with_request m id info t) id' info' t').requests
      ≡ some (id, record { request_id = id; conn_info = info; start_time = t })
unfolding earliest_from insert
two_pending m id id' info info' t t' empty ne before = rw empty (ground (arith, nat_beq_iff id id'))

-- When no request is pending, two calls of ConnectAuthDevice store their requests one after the other, and
-- the socket of the second connects first: the listener is told that the first request was connected, with
-- the first request's connection info, over the second one's descriptor.
pub first_request_takes_connection :
    (m : AuthConnectionManager) (id id' : ℕ) (info info' : AuthConnInfo) (t t' now : ℕ) (fd : ℤ)
    → m.requests ≡ []
    → m.listener.on_connect_result ≡ true
    → id ≢ id'
    → t < t'
    → (connect_auth_device (some (with_request m id info t)) id' (some info') t' (some fd) now).1
      ≡ connect_result id (gen_conn_id info.link_type (int32 (uint32 fd))) (pos 0) info ∷ []
unfolding report_result
first_request_takes_connection m id id' info info' t t' now fd empty told ne before =
    rw
      (connect_matched (with_request m id info t) id' info' t' now fd
        (id, record { request_id = id; conn_info = info; start_time = t })
        (two_pending m id id' info info' t t' empty ne before))
      (rw told refl)
