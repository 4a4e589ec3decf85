-- ===== src/Transmission/Panics.antt =====
-- Which messages on module 9 make onAuthMsgDataRecv panic.
use dsoftbus_go.Base.{
  nat_eq, ◌≡◌, ◌↔◌, ◌⊎◌, ◌<◌, ◌==◌, true, false, [], length, none, some, Option-cases, Bool-cases,
  inl, inr, arith,
}
use dsoftbus_go.Base.Int.{ℤ, pos, int_eq, int_beq_iff}
use dsoftbus_go.Base.Text.{Bytes}
use dsoftbus_go.Types.{AuthChannelData}
use dsoftbus_go.SessionContext.{Contexts}
use dsoftbus_go.Transmission.Messages.{TransJson, DmNegotiateRequest, DmAuthRequest}
use dsoftbus_go.Transmission.Handlers.{
  TransAnswers, on_auth_msg_data_recv, clean_json_data, payload_of, handle_dm_message,
  handle_dm_negotiate, handle_dm_auth_request, create_device_group, add_device_to_group,
  check_device_auth_status,
}

-- A negotiation of a device in a group whose id is short.
abbrev pub ShortNegotiation : TransAnswers → DmNegotiateRequest → Type 0
ShortNegotiation a msg =
    (a.local_udid ≡ none → ⊥)
    × (0 < length msg.local_device_id)
    × (length msg.local_device_id < 8)
    × (a.has_gm ≡ true)
    × (a.has_groups ≡ true)

-- A request for authentication from a device whose id is short, or to a device that has no id.
abbrev pub ShortRequest : TransAnswers → DmAuthRequest → Type 0
ShortRequest a req = (a.local_udid ≡ none) ⊎ ((a.has_gm ≡ true) × (length req.local_device_id < 16))

module _ (js : TransJson) where
  negotiate-none :
      (a : TransAnswers) (ch seq : ℤ) (msg : DmNegotiateRequest)
      → (handle_dm_negotiate js a ch seq msg ≡ none) ↔ ShortNegotiation a msg
  unfolding handle_dm_negotiate check_device_auth_status
  negotiate-none a ch seq msg = ground arith

  request-none :
      (a : TransAnswers) (ctxs : Contexts) (ch seq : ℤ) (bytes : Bytes) (req : DmAuthRequest)
      → js.auth_request bytes ≡ some req
      → (handle_dm_auth_request js a ctxs ch seq bytes ≡ none) ↔ ShortRequest a req
  unfolding handle_dm_auth_request create_device_group add_device_to_group
  request-none a ctxs ch seq bytes req e = ground arith

  request-unread :
      (a : TransAnswers) (ctxs : Contexts) (ch seq : ℤ) (bytes : Bytes)
      → js.auth_request bytes ≡ none
      → handle_dm_auth_request js a ctxs ch seq bytes ≡ some (ctxs, [])
  unfolding handle_dm_auth_request
  request-unread a ctxs ch seq bytes e = ground arith

  -- The bytes, up to the first zero, are read as no HiChain message and as one of the two requests.
  abbrev pub Panics : TransAnswers → Bytes → Type 0
  Panics a clean =
      (js.has_message clean ≡ some false)
      × ((msg : DmNegotiateRequest) × (js.negotiate_request clean ≡ some msg)
          × (((msg.msg_type ≡ pos 80) × ShortNegotiation a msg)
              ⊎ ((msg.msg_type ≡ pos 100)
                  × ((req : DmAuthRequest) × (js.auth_request clean ≡ some req)
                      × ShortRequest a req))))

  panics :
      (a : TransAnswers) (ctxs : Contexts) (ch : ℤ) (d : AuthChannelData)
      → on_auth_msg_data_recv js a ctxs ch d ≡ none
      → Panics a (clean_json_data (payload_of d))
  unfolding on_auth_msg_data_recv handle_dm_message
  panics a ctxs ch d e =
      let clean = clean_json_data (payload_of d) in
      elim (Option-cases (js.has_message clean)) [
        | inl e1 ↦ absurd (ground arith)
        | inr (true, e1) ↦ absurd (ground arith)
        | inr (false, e1) ↦ elim (Option-cases (js.negotiate_request clean)) [
          | inl e2 ↦ absurd (ground arith)
          | inr (msg, e2) ↦ elim (Bool-cases (msg.msg_type == pos 80)) [
            | inl e3 ↦
                let none' : handle_dm_negotiate js a ch d.seq msg ≡ none = ground arith in
                (
                  e1,
                  (msg, e2, inl ((int_beq_iff _ _).0 e3, (negotiate-none a ch d.seq msg).0 none')),
                )
            | inr e3 ↦ elim (Bool-cases (msg.msg_type == pos 100)) [
              | inr e4 ↦ absurd (ground arith)
              | inl e4 ↦
                  let none' : handle_dm_auth_request js a ctxs ch d.seq clean ≡ none =
                    ground arith in
                  elim (Option-cases (js.auth_request clean)) [
                    | inl e5 ↦
                        let no = request-unread a ctxs ch d.seq clean e5 in absurd (ground arith)
                    | inr (req, e5) ↦ (
                      e1,
                      (
                        msg,
                        e2,
                        inr (
                          (int_beq_iff _ _).0 e4,
                          (req, e5, (request-none a ctxs ch d.seq clean req e5).0 none'),
                        ),
                      ),
                    )
                  ]
            ]
          ]
        ]
      ]

  Panics-back :
      (a : TransAnswers) (ctxs : Contexts) (ch : ℤ) (d : AuthChannelData)
      → Panics a (clean_json_data (payload_of d))
      → on_auth_msg_data_recv js a ctxs ch d ≡ none
  unfolding on_auth_msg_data_recv handle_dm_message
  Panics-back a ctxs ch d (e1, (msg, e2, inl (t, s))) =
      let none' = (negotiate-none a ch d.seq msg).1 s in ground arith
  Panics-back a ctxs ch d (e1, (msg, e2, inr (t, (req, e3, s)))) =
      let none' = (request-none a ctxs ch d.seq (clean_json_data (payload_of d)) req e3).1 s in
      ground arith

  -- onAuthMsgDataRecv panics exactly on two messages without a field "message": a negotiation (80) of a device
  -- that is in a group and whose id has 1 to 7 bytes, and a request for authentication (100) of a device whose
  -- id has fewer than 16 bytes, or of any device while the own id is not known. The first wants the own id,
  -- the first and the second wants the group manager.
  pub on_auth_msg_data_recv-none :
      (a : TransAnswers) (ctxs : Contexts) (ch : ℤ) (d : AuthChannelData)
      → (on_auth_msg_data_recv js a ctxs ch d ≡ none) ↔ Panics a (clean_json_data (payload_of d))
  on_auth_msg_data_recv-none a ctxs ch d = (panics a ctxs ch d, Panics-back a ctxs ch d)
