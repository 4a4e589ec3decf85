-- ===== src/Transmission/Messages.antt =====
-- pkg/transmission/trans_auth_manager.go: the messages, and their JSON as parameters.
use dsoftbus_go.Base.{Bool, Option}
use dsoftbus_go.Base.Int.{ℤ}
use dsoftbus_go.Base.Text.{Bytes}

pub record AuthChannelRequestMsg : Type 0 where
  pub code : ℤ
  pub device_id : Bytes
  pub pkg_name : Bytes
  pub src_bus_name : Bytes
  pub dst_bus_name : Bytes
  pub req_id : Bytes
  pub mtu_size : ℤ

pub record AuthChannelReplyMsg : Type 0 where
  pub code : ℤ
  pub device_id : Bytes
  pub pkg_name : Bytes
  pub src_bus_name : Bytes
  pub dst_bus_name : Bytes
  pub req_id : Bytes
  pub mtu_size : ℤ

pub record DmNegotiateRequest : Type 0 where
  pub msg_type : ℤ
  pub itf_ver : Bytes
  pub local_device_id : Bytes
  pub auth_type : ℤ
  pub reply : ℤ
  pub authed : Bool
  pub have_credential : Bool
  pub dm_version : Bytes
  pub crypto_support : Bool

pub record DmNegotiateResponse : Type 0 where
  pub itf_ver : Bytes
  pub msg_type : ℤ
  pub crypto_support : Bool
  pub auth_type : ℤ
  pub reply : ℤ
  pub local_device_id : Bytes
  pub dm_version : Bytes
  pub authed : Bool
  pub is_auth_code_ready : Bool

pub record DmAuthRequest : Type 0 where
  pub msg_type : ℤ
  pub itf_ver : Bytes
  pub local_device_id : Bytes
  pub auth_type : ℤ
  pub token : Bytes
  pub is_show_dialog : Bool
  pub target : Bytes
  pub visibility : ℤ
  pub index : ℤ
  pub slice_num : ℤ

-- The map that handleDMAuthRequest fills; DMAuthResponse is not used.
pub record DmAuthReply : Type 0 where
  pub itf_ver : Bytes
  pub msg_type : ℤ
  pub reply : ℤ
  pub device_id : Bytes
  pub token : Bytes
  pub net_id : Bytes
  pub request_id : ℤ
  pub group_id : Bytes
  pub group_name : Bytes
  pub auth_token : Bytes

-- encoding/json for these messages. `has_message` parses any object and looks for a field "message".
pub record TransJson : Type 0 where
  pub channel_request : Bytes → Option AuthChannelRequestMsg
  pub has_message : Bytes → Option Bool
  pub negotiate_request : Bytes → Option DmNegotiateRequest
  pub auth_request : Bytes → Option DmAuthRequest
  pub channel_reply : AuthChannelReplyMsg → Bytes
  pub negotiate_response : DmNegotiateResponse → Bytes
  pub auth_reply : DmAuthReply → Bytes
