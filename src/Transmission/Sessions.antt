-- ===== src/Transmission/Sessions.antt =====
-- Sessions and the data that they send, and the listeners of TransAuthInit.
use dsoftbus_go.Base.{
  ℕ, ◌+◌, ◌-◌, ◌%◌, ◌^◌, ◌≤◌, ◌<◌, nat_eq, ◌≡◌, ◌∙◌, ap, refl, ◌==◌, if◌then◌else◌, ◌||◌, Bool,
  true, false, List, [], ◌∷◌, length, Option, none, some, ok, err, Option-cases, inl, inr, arith,
}
use dsoftbus_go.Base.Int.{ℤ, pos, ◌+ℤ◌, int32, uint32, uint64, int_eq, IsInt64}
use dsoftbus_go.Base.Table.{lookup, insert, lookup-insert}
use dsoftbus_go.Base.Text.{Bytes}
use dsoftbus_go.Types.{
  SocketPktHead, magic_number, module_auth_msg, module_auth_channel, module_auth_sdk,
  auth_socket_max_data_len,
}
use dsoftbus_go.Channel.{
  Registry, reg_auth_channel_listener, unreg_auth_channel_listener, notify_channel_data_received,
  set_listener,
}
use dsoftbus_go.Channel.Laws.{data_event, reg-dispatch, unreg-dispatch}
use dsoftbus_go.Fds.{ConnectionManager, get_conn}
use dsoftbus_go.Receive.{Delivery, on_tcp_data_received}
use dsoftbus_go.Post.{auth_post_channel_data}
use dsoftbus_go.Post.Received.{IsChannelData, as_delivery, posted_is_received}
use dsoftbus_go.Transmission.{
  Session, SessionManager, open_session, get_session, send_bytes, session_data, new_listener,
  trans_auth_init, trans_auth_deinit, session_not_found,
}

-- The numbers given so far are those up to the counter, which has not reached the end of int32.
pub record IsOpened (m : SessionManager) (n : ℕ) : Type 0 where
  pub counter_is : m.session_counter ≡ pos n
  pub not_wrapped : n < 2 ^ 31 - 1
  pub below :
      (id : ℤ) (s : Session) → lookup id m.sessions ≡ some s → (k : ℕ) × (id ≡ pos k) × (k ≤ n)

next_id :
    (m : SessionManager) (n : ℕ)
    → IsOpened m n
    → int32 (uint32 (m.session_counter +ℤ pos 1)) ≡ pos (n + 1)
unfolding int32 uint32 ◌+ℤ◌
next_id m n v = let e = v.counter_is in let l = v.not_wrapped in ground arith

missing :
    (m : SessionManager) (id : ℤ)
    → lookup id m.sessions ≡ none
    → get_session m id ≡ err session_not_found
unfolding get_session
missing m id e = ground arith

session_at :
    (m : SessionManager) (id : ℤ) (s : Session)
    → get_session m id ≡ ok s
    → lookup id m.sessions ≡ some s
unfolding get_session
session_at m id s e = elim (Option-cases (lookup id m.sessions)) [
  | inl e' ↦ absurd (ground arith)
  | inr (x, e') ↦ ground arith
]

sent_by :
    {C : Type 0} (is_tcp : C → Bool) (m : SessionManager) (sockets : Option (ConnectionManager C))
    (id : ℤ) (s : Session) (n : ℕ) (bytes : Bytes) (r : C × List ℕ)
    → lookup id m.sessions ≡ some s
    → s.channel_id ≡ pos n
    → auth_post_channel_data is_tcp sockets (pos n) (some (session_data id bytes)) ≡ ok r
    → send_bytes is_tcp m sockets id bytes ≡ ok r
unfolding send_bytes
sent_by is_tcp m sockets id s n bytes r e ch sent = rw (e, send_bytes) (rw (ch, sent) refl)

opened_at :
    (m : SessionManager) (new : ℤ) (s : Session) (id : ℤ)
    → get_session (record m { sessions = insert new s m.sessions; session_counter = new }) id
      ≡ (if new == id then ok s else get_session m id)
unfolding get_session
opened_at m new s id = ground (arith, lookup-insert new id s m.sessions)

absent : (m : SessionManager) (n : ℕ) → IsOpened m n → lookup (pos (n + 1)) m.sessions ≡ none
absent m n v = elim (Option-cases (lookup (pos (n + 1)) m.sessions)) [
  | inl e ↦ e
  | inr (s, e) ↦ let (k, same, le) = v.below (pos (n + 1)) s e in absurd (ground arith)
]

-- OpenSession gives a number that no open session has and leaves the others as they are, as long as the
-- counter, an int32 that starts at 1000, is not used up.
pub open_session_lem :
    (m : SessionManager) (n : ℕ) (name peer : Bytes) (auth_id id : ℤ)
    → IsOpened m n
    → let (m', new) = open_session m name peer auth_id in
      (get_session m new ≡ err session_not_found)
      × (get_session m' id ≡ (
          if new == id
          then ok (record {
            session_id = new;
            session_name = name;
            peer_name = peer;
            auth_id = auth_id;
            channel_id = auth_id;
            is_server = false;
          })
          else get_session m id))
unfolding open_session get_session
open_session_lem m n name peer auth_id id v =
    let new : int32 (uint32 (m.session_counter +ℤ pos 1)) ≡ pos (n + 1) = next_id m n v in
    let fresh : lookup (pos (n + 1)) m.sessions ≡ none = absent m n v in
    (rw new (missing m _ fresh), opened_at m _ _ id)

-- TransAuthInit never fails. After it data of the modules 8, 9 and 3 goes to the three new listeners, and
-- data of another module where it went before; after TransAuthDeinit the three modules have no listener.
pub trans_auth_init_lem :
    (n : ℕ) (fd : ℤ) (head : SocketPktHead) (body : List ℕ) (r : Registry)
    → ((trans_auth_init n r).1 ≡ none)
      × (notify_channel_data_received fd head body (trans_auth_init n r).0 ≡ (
          if module_auth_sdk == head.module_id
          then data_event (new_listener (n + 2)) fd head body ∷ []
          else if module_auth_msg == head.module_id
          then data_event (new_listener (n + 1)) fd head body ∷ []
          else if module_auth_channel == head.module_id
          then data_event (new_listener n) fd head body ∷ []
          else notify_channel_data_received fd head body r))
      × (notify_channel_data_received fd head body (trans_auth_deinit (trans_auth_init n r).0) ≡ (
          if module_auth_sdk == head.module_id
            || (module_auth_msg == head.module_id || module_auth_channel == head.module_id)
          then []
          else notify_channel_data_received fd head body r))
unfolding trans_auth_init trans_auth_deinit reg_auth_channel_listener
trans_auth_init_lem n fd head body r =
    let r1 = set_listener module_auth_channel (new_listener n) r in
    let r2 = set_listener module_auth_msg (new_listener (n + 1)) r1 in
    let r3 = set_listener module_auth_sdk (new_listener (n + 2)) r2 in
    let d1 = reg-dispatch module_auth_channel fd (new_listener n) head body r r1 refl in
    let d2 = reg-dispatch module_auth_msg fd (new_listener (n + 1)) head body r1 r2 refl in
    let d3 = reg-dispatch module_auth_sdk fd (new_listener (n + 2)) head body r2 r3 refl in
    let u1 = unreg-dispatch module_auth_channel fd head body r3 in
    let u2 =
      unreg-dispatch module_auth_msg fd head body
        (unreg_auth_channel_listener module_auth_channel r3) in
    let u3 = unreg-dispatch module_auth_sdk fd head body (
      unreg_auth_channel_listener module_auth_msg
        (unreg_auth_channel_listener module_auth_channel r3)) in
    (refl, rw (d3, d2, d1) refl, ground arith)

-- What the peer of a session gets: a message of module 9, numbered by the session, with flag 0.
abbrev pub session_delivery : ℤ → Bytes → Delivery
session_delivery id bytes = record {
  head = record {
    magic = magic_number;
    module_id = pos 9;
    seq = id;
    flag = pos 0;
    len = length bytes;
  };
  body = bytes;
}

delivered_as :
    (id : ℤ) (bytes : Bytes)
    → length bytes ≤ auth_socket_max_data_len
    → as_delivery (session_data id bytes) bytes ≡ session_delivery id bytes
delivered_as id bytes l =
    let short : length bytes % 2 ^ 32 ≡ length bytes = omega (arith, l) in
    ap
      (λ (n : ℕ). record {
        head = record { magic = magic_number; module_id = pos 9; seq = id; flag = pos 0; len = n };
        body = bytes;
      })
      short

-- Bytes sent on an open session, 1 byte to 64 KB, whose number fits an int64 and whose channel stands for a
-- TCP connection, are written to this connection; the peer that reads what was written delivers one packet:
-- module 9, the session's number as the sequence number, flag 0, and the bytes.
pub sent_bytes_are_received :
    {C : Type 0} (is_tcp : C → Bool) (m : SessionManager) (sockets : ConnectionManager C) (id : ℤ)
    (s : Session) (n : ℕ) (conn : C) (bytes : Bytes)
    → IsInt64 id
    → get_session m id ≡ ok s
    → s.channel_id ≡ pos n
    → get_conn sockets (uint64 (pos n)) ≡ some conn
    → is_tcp conn ≡ true
    → 0 < length bytes
    → length bytes ≤ auth_socket_max_data_len
    → (wire : List ℕ) × (send_bytes is_tcp m (some sockets) id bytes ≡ ok (conn, wire))
      × (on_tcp_data_received wire (length wire)
          ≡ some (pos (length wire), session_delivery id bytes ∷ []))
sent_bytes_are_received is_tcp m sockets id s n conn bytes fits e ch found tcp l1 l2 =
    let v : IsChannelData (session_data id bytes) bytes = record {
      module_fits = omega arith;
      seq_fits = fits;
      flag_fits = omega arith;
      has_payload = refl;
      len_ok = omega arith;
      not_empty = omega arith;
      not_long = omega arith;
    } in
    let (wire, sent, got) =
      posted_is_received is_tcp sockets n (session_data id bytes) bytes conn v found tcp in
    (
      wire,
      sent_by is_tcp m (some sockets) id s n bytes (conn, wire) (session_at m id s e) ch sent,
      got ∙ ap (λ (x : Delivery). some (pos (length wire), x ∷ [])) (delivered_as id bytes l2),
    )
