-- ===== src/Transmission/Handlers.antt =====
-- pkg/transmission/trans_auth_manager.go: what the three listeners do with data and with the end of a
-- channel. `none` is a panic: an index out of range or a nil pointer.
use dsoftbus_go.Base.{
  ◌%◌, ◌^◌, ◌==◌, nat_eq, ltb, not, ◌&&◌, if◌then◌else◌, Bool, true, false, List, [], ◌∷◌, ◌++◌,
  length, take, Option, none, some,
}
use dsoftbus_go.Base.Int.{ℤ, pos, int_eq}
use dsoftbus_go.Base.Text.{Bytes, is_empty}
use dsoftbus_go.Types.{
  AuthChannelData, module_auth_channel, module_auth_msg, auth_socket_max_data_len,
}
use dsoftbus_go.SessionContext.{
  Contexts, AuthSessionContext, set_auth_session_context, delete_auth_session_context,
}
use dsoftbus_go.Transmission.Messages.{
  TransJson, AuthChannelRequestMsg, AuthChannelReplyMsg, DmNegotiateRequest, DmNegotiateResponse,
  DmAuthRequest, DmAuthReply,
}

-- A call of AuthPostChannelData, of ProcessData with the data that it answers to, of CreateGroup and of
-- AddMemberToGroup.
pub data TransCall : Type 0 where
  posted : ℤ → AuthChannelData → TransCall
  hichain_data : ℤ → AuthChannelData → TransCall
  group_created : Bytes → TransCall
  member_added : Bytes → Bytes → TransCall

-- The device's id, whether device_auth's two instances are there, whether the peer is in a group, and
-- whether AddMemberToGroup succeeds.
pub record TransAnswers : Type 0 where
  pub local_udid : Option Bytes
  pub has_ga : Bool
  pub has_gm : Bool
  pub has_groups : Bool
  pub member_ok : Bool

unfoldable pub clean_json_data : Bytes → Bytes
clean_json_data [] = []
clean_json_data (b ∷ bs) = if b == 0 then [] else b ∷ clean_json_data bs

abbrev pub payload_of : AuthChannelData → Bytes
payload_of d = elim d.payload [ none ↦ [] | some bytes ↦ bytes ]

abbrev pub answer : ℤ → ℤ → ℤ → Bytes → AuthChannelData
answer module_id flag seq bytes = record {
  module_id = module_id;
  seq = seq;
  flag = flag;
  len = length bytes % 2 ^ 32;
  payload = some bytes;
}

-- "1.1"
abbrev version_1_1 : Bytes
version_1_1 = 49 ∷ 46 ∷ 49 ∷ []

-- "888888"
abbrev shown_pin : Bytes
shown_pin = 56 ∷ 56 ∷ 56 ∷ 56 ∷ 56 ∷ 56 ∷ []

-- "SOFTBUS_GROUP_"
abbrev group_prefix : Bytes
group_prefix = 83 ∷ 79 ∷ 70 ∷ 84 ∷ 66 ∷ 85 ∷ 83 ∷ 95 ∷ 71 ∷ 82 ∷ 79 ∷ 85 ∷ 80 ∷ 95 ∷ []

-- "SoftBusGroup"
abbrev fixed_group_name : Bytes
fixed_group_name = 83 ∷ 111 ∷ 102 ∷ 116 ∷ 66 ∷ 117 ∷ 115 ∷ 71 ∷ 114 ∷ 111 ∷ 117 ∷ 112 ∷ []

-- The id between `{\"groupId\":\"` and `\"}`, backslashes included.
abbrev group_id_json : Bytes → Bytes
group_id_json id =
    (123 ∷ 92 ∷ 34 ∷ 103 ∷ 114 ∷ 111 ∷ 117 ∷ 112 ∷ 73 ∷ 100 ∷ 92 ∷ 34 ∷ 58 ∷ 92 ∷ 34 ∷ [])
    ++ (id ++ 92 ∷ 34 ∷ 125 ∷ [])

-- `{\"pinCode\":888888}`
abbrev auth_token_json : Bytes
auth_token_json =
    123 ∷ 92 ∷ 34 ∷ 112 ∷ 105 ∷ 110 ∷ 67 ∷ 111 ∷ 100 ∷ 101 ∷ 92 ∷ 34 ∷ 58 ∷ 56 ∷ 56 ∷ 56 ∷ 56 ∷ 56
    ∷ 56 ∷ 125 ∷ []

-- `none` within is the error of a missing instance; a shorter id is an index out of range.
unfoldable pub create_device_group : TransAnswers → Bytes → Option (Option Bytes)
create_device_group a peer_device_id =
    if a.has_gm
    then if ltb (length peer_device_id) 16
      then none
      else some (some (group_prefix ++ take 16 peer_device_id))
    else some none

-- Both errors are logged only; the id is cut to 8 bytes for the log.
unfoldable pub add_device_to_group : TransAnswers → Bytes → Bytes → Option (List TransCall)
add_device_to_group a group_id device_id =
    if a.has_gm
    then if a.member_ok && ltb (length device_id) 8
      then none
      else some (member_added group_id device_id ∷ [])
    else some []

unfoldable pub check_device_auth_status : TransAnswers → Bool
check_device_auth_status a = a.has_gm && a.has_groups

module _ (js : TransJson) where
  abbrev pub reply_to : AuthChannelRequestMsg → Bytes → AuthChannelReplyMsg
  reply_to req udid = record {
    code = req.code;
    device_id = udid;
    pkg_name = req.pkg_name;
    src_bus_name = req.dst_bus_name;
    dst_bus_name = req.src_bus_name;
    req_id = req.req_id;
    mtu_size = pos auth_socket_max_data_len;
  }

  unfoldable pub on_auth_channel_data_recv : TransAnswers → ℤ → AuthChannelData → List TransCall
  on_auth_channel_data_recv a channel_id d =
      if d.flag == pos 0
      then elim (js.channel_request (clean_json_data (payload_of d))) [
        | none ↦ []
        | some req ↦ elim a.local_udid [
          | none ↦ []
          | some udid ↦
              posted channel_id
                (answer module_auth_channel (pos 1) d.seq (js.channel_reply (reply_to req udid)))
              ∷ []
        ]
      ]
      else []

  unfoldable pub on_auth_sdk_data_recv : TransAnswers → ℤ → AuthChannelData → List TransCall
  on_auth_sdk_data_recv a channel_id d = if a.has_ga then hichain_data channel_id d ∷ [] else []

  -- OnTransmit of the callback that goes with `hichain_data`: the answer takes the module and the number of
  -- what was received.
  abbrev pub hichain_answer : ℤ → AuthChannelData → Bytes → TransCall
  hichain_answer channel_id d resp = posted channel_id (answer d.module_id (pos 0) d.seq resp)

  abbrev negotiate_answer : DmNegotiateRequest → Bytes → Bool → DmNegotiateResponse
  negotiate_answer req udid authed = record {
    itf_ver = version_1_1;
    msg_type = pos 90;
    crypto_support = false;
    auth_type = req.auth_type;
    reply = pos 0;
    local_device_id = udid;
    dm_version = version_1_1;
    authed = authed;
    is_auth_code_ready = true;
  }

  -- A known peer's id is cut to 8 bytes for the log.
  unfoldable pub handle_dm_negotiate :
      TransAnswers → ℤ → ℤ → DmNegotiateRequest → Option (List TransCall)
  handle_dm_negotiate a channel_id seq req = elim a.local_udid [
    | none ↦ some []
    | some udid ↦
        let authed = not (is_empty req.local_device_id) && check_device_auth_status a in
        if authed && ltb (length req.local_device_id) 8
        then none
        else some (
            posted channel_id (
              answer module_auth_msg (pos 0) seq
                (js.negotiate_response (negotiate_answer req udid authed)))
            ∷ [])
  ]

  abbrev dm_context : ℤ → Bytes → Bytes → Bytes → AuthSessionContext
  dm_context channel_id udid peer group_id = record {
    channel_id = channel_id;
    pin_code = shown_pin;
    group_id = group_id;
    request_id = channel_id;
    local_device_id = udid;
    peer_device_id = peer;
  }

  abbrev dm_auth_reply : DmAuthRequest → ℤ → Bytes → Bytes → DmAuthReply
  dm_auth_reply req channel_id udid group_id = record {
    itf_ver = version_1_1;
    msg_type = pos 200;
    reply = pos 0;
    device_id = udid;
    token = req.token;
    net_id = udid;
    request_id = channel_id;
    group_id = group_id_json group_id;
    group_name = fixed_group_name;
    auth_token = auth_token_json;
  }

  abbrev with_reply :
      Contexts
      → List TransCall
      → Option (List TransCall)
      → TransCall
      → Option (Contexts × List TransCall)
  with_reply ctxs before none reply = none
  with_reply ctxs before (some added) reply = some (ctxs, before ++ (added ++ reply ∷ []))

  -- The error of a missing device id is not read: the id is taken from a nil pointer.
  abbrev answer_auth_request :
      TransAnswers → Contexts → ℤ → ℤ → DmAuthRequest → Option (Contexts × List TransCall)
  answer_auth_request a ctxs channel_id seq req = elim a.local_udid [
    | none ↦ none
    | some udid ↦ elim (create_device_group a req.local_device_id) [
      | none ↦ none
      | some none ↦ some (
        set_auth_session_context ctxs channel_id
            (dm_context channel_id udid req.local_device_id []),
        [],
      )
      | some (some group_id) ↦
          with_reply
            (set_auth_session_context ctxs channel_id
              (dm_context channel_id udid req.local_device_id group_id))
            (group_created group_id ∷ []) (add_device_to_group a group_id req.local_device_id)
            (posted channel_id (
              answer module_auth_msg (pos 0) seq
                (js.auth_reply (dm_auth_reply req channel_id udid group_id))))
    ]
  ]

  unfoldable pub handle_dm_auth_request :
      TransAnswers → Contexts → ℤ → ℤ → Bytes → Option (Contexts × List TransCall)
  handle_dm_auth_request a ctxs channel_id seq bytes = elim (js.auth_request bytes) [
    | none ↦ some (ctxs, [])
    | some req ↦ answer_auth_request a ctxs channel_id seq req
  ]

  abbrev with_contexts : Contexts → Option (List TransCall) → Option (Contexts × List TransCall)
  with_contexts ctxs none = none
  with_contexts ctxs (some calls) = some (ctxs, calls)

  -- The switch over MSG_TYPE.
  unfoldable pub handle_dm_message :
      TransAnswers → Contexts → ℤ → AuthChannelData → Bytes → Option (Contexts × List TransCall)
  handle_dm_message a ctxs channel_id d clean = elim (js.negotiate_request clean) [
    | none ↦ some (ctxs, [])
    | some msg ↦
        if msg.msg_type == pos 80
        then with_contexts ctxs (handle_dm_negotiate a channel_id d.seq msg)
        else if msg.msg_type == pos 100
        then handle_dm_auth_request a ctxs channel_id d.seq clean
        else some (ctxs, [])
  ]

  -- A message with a field "message" is HiChain's.
  unfoldable pub on_auth_msg_data_recv :
      TransAnswers → Contexts → ℤ → AuthChannelData → Option (Contexts × List TransCall)
  on_auth_msg_data_recv a ctxs channel_id d =
      let clean = clean_json_data (payload_of d) in
      elim (js.has_message clean) [
        | none ↦ some (ctxs, [])
        | some true ↦ some (ctxs, on_auth_sdk_data_recv a channel_id d)
        | some false ↦ handle_dm_message a ctxs channel_id d clean
      ]

abbrev pub on_disconnect : Contexts → ℤ → Contexts
on_disconnect ctxs channel_id = delete_auth_session_context ctxs channel_id
