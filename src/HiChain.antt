-- ===== src/HiChain.antt =====
-- pkg/device_auth/hichain: types.go and the messages of protocol.go. Strings are the bytes of their
-- characters. A handle's callbacks are not in its record: what they answer is an argument of each step,
-- and what they are called with is in its result.
pub mod Hex
pub mod Field
pub mod FieldBytes
pub mod Pake
pub mod Handlers
pub mod Store
pub mod Exchange
pub mod Dispatch
pub mod Confirmed
pub mod Started
pub mod Proved
pub mod Agreement
pub mod Refused
pub mod Completed
pub mod Exchanged
pub mod Toy
pub mod Runs
use dsoftbus_go.Base.{ℕ, Bool, false, List, [], ◌∷◌, Option, none, some, Result, ok, err}
use dsoftbus_go.Base.Int.{ℤ, pos, negsuc}
use dsoftbus_go.Base.Text.{Bytes}

abbrev pub hc_ok : ℤ
hc_ok = pos 0

-- -3
abbrev pub hc_auth_failed : ℤ
hc_auth_failed = negsuc 2

abbrev pub msg_type_auth_start : ℤ
msg_type_auth_start = pos 1

abbrev pub msg_type_auth_challenge : ℤ
msg_type_auth_challenge = pos 2

abbrev pub msg_type_pake_exchange_req : ℤ
msg_type_pake_exchange_req = pos 3

abbrev pub msg_type_auth_confirm : ℤ
msg_type_auth_confirm = pos 4

abbrev pub msg_type_pake_response : ℤ
msg_type_pake_response = pos 32769

abbrev pub msg_type_pake_server_confirm : ℤ
msg_type_pake_server_confirm = pos 32770

abbrev pub msg_type_pake_exchange_resp : ℤ
msg_type_pake_exchange_resp = pos 32771

abbrev pub msg_type_error : ℤ
msg_type_error = pos 32896

pub data HcState : Type 0 where
  state_init state_started state_authenticating state_completed state_failed : HcState

pub record SessionIdentity : Type 0 where
  pub session_id : ℕ
  pub package_name : Bytes
  pub service_type : Bytes
  pub operation_code : ℤ

pub record ProtocolParams : Type 0 where
  pub key_length : ℤ
  pub self_auth_id : Bytes
  pub peer_auth_id : Bytes
  pub pin_code : Bytes

pub record HiChainHandle : Type 0 where
  pub identity : SessionIdentity
  pub device_type : ℤ
  pub state : HcState
  pub session_key : Bytes
  pub peer_auth_id : Bytes
  pub self_auth_id : Bytes
  pub our_challenge : Bytes
  pub peer_challenge : Bytes
  pub request_id : Bytes
  pub pake_base : Bytes
  pub pake_salt : Bytes
  pub pake_esk : Bytes
  pub pake_epk : Bytes
  pub pake_peer_epk : Bytes
  pub pake_shared_sec : Bytes
  pub long_term_private_key : Bytes
  pub long_term_public_key : Bytes

pub record VersionInfo : Type 0 where
  pub min_version : Bytes
  pub current_version : Bytes

pub record PakePayload : Type 0 where
  pub salt : Bytes
  pub epk : Bytes
  pub challenge : Bytes
  pub kcf_data : Bytes
  pub version : Option VersionInfo
  pub support256mod : Bool
  pub operation_code : ℤ
  pub error_code : ℤ
  pub ex_auth_info : Bytes
  pub peer_auth_id : Bytes
  pub peer_user_type : ℤ

pub record AuthMessage : Type 0 where
  pub message_type : ℤ
  pub session_id : ℕ
  pub request_id : Bytes
  pub payload : Option PakePayload
  pub peer_device_id : Bytes
  pub peer_auth_id : Bytes
  pub conn_device_id : Bytes
  pub peer_udid : Bytes
  pub auth_form : ℤ
  pub challenge : Bytes
  pub response : Bytes
  pub auth_id : Bytes
  pub result : ℤ
  pub error_code : ℤ

-- The fields that a struct literal leaves out.
abbrev pub no_payload : PakePayload
no_payload = record {
  salt = [];
  epk = [];
  challenge = [];
  kcf_data = [];
  version = none;
  support256mod = false;
  operation_code = pos 0;
  error_code = pos 0;
  ex_auth_info = [];
  peer_auth_id = [];
  peer_user_type = pos 0;
}

abbrev pub message_of : ℤ → AuthMessage
message_of t = record {
  message_type = t;
  session_id = 0;
  request_id = [];
  payload = none;
  peer_device_id = [];
  peer_auth_id = [];
  conn_device_id = [];
  peer_udid = [];
  auth_form = pos 0;
  challenge = [];
  response = [];
  auth_id = [];
  result = pos 0;
  error_code = pos 0;
}

-- One constructor for each error that the code returns.
pub data HcError : Type 0 where
  nil_handle bad_message invalid_state no_params no_random no_device_id empty_psk hkdf_failed :
      HcError
  elligator_failed bad_private_key bad_base_point bad_peer_key x25519_failed payload_nil : HcError
  bad_hex kcf_mismatch not_sent old_protocol no_ex_auth_info short_ex_auth_info : HcError
  bad_aes_key bad_nonce not_authentic short_plaintext bad_auth_info no_auth_pk : HcError
  bad_public_key bad_signature bad_signing_key bad_signature_length no_key_pair : HcError
  peer_error unknown_type : ℤ → HcError

-- A call of OnTransmit, SetSessionKey and SetServiceResult.
pub data HcCall : Type 0 where
  transmitted session_key_set : Bytes → HcCall
  service_result : ℤ → HcCall

-- The fields "authPk" and "authId" of a JSON object, where they are strings.
pub record AuthInfo : Type 0 where
  pub auth_id : Option Bytes
  pub auth_pk : Option Bytes

-- crypto/*, golang.org/x/crypto, math/big's ModInverse and encoding/json.
pub record Primitives : Type 0 where
  -- scalar, point
  pub x25519 : Bytes → Bytes → Option Bytes
  -- secret, salt, info, length
  pub hkdf : Bytes → Bytes → Bytes → ℕ → Option Bytes
  -- key, message
  pub hmac : Bytes → Bytes → Bytes
  pub sha256 : Bytes → Bytes
  -- key, nonce, text, additional data
  pub seal : Bytes → Bytes → Bytes → Bytes → Bytes
  pub open_sealed : Bytes → Bytes → Bytes → Bytes → Option Bytes
  -- private key, message
  pub sign : Bytes → Bytes → Bytes
  -- public key, message, signature
  pub verify : Bytes → Bytes → Bytes → Bool
  pub mod_inverse : ℕ → ℕ → Option ℕ
  pub marshal : AuthMessage → Bytes
  pub unmarshal : Bytes → Option AuthMessage
  -- "authId", "authPk"
  pub marshal_auth_info : Bytes → Bytes → Bytes
  pub unmarshal_auth_info : Bytes → Option AuthInfo

-- What the callbacks, the random source and the key generator answer in one step.
pub record Answers : Type 0 where
  pub params : Option ProtocolParams
  pub salt : Option Bytes
  pub private_bytes : Option Bytes
  pub challenge : Option Bytes
  pub nonce : Option Bytes
  -- private and public key
  pub key_pair : Option (Bytes × Bytes)
  pub sent : Bool

-- A step that fails leaves the handle as it was then.
abbrev pub Failed : Type 0
Failed = HiChainHandle × HcError

abbrev pub or_fail {ℓ} : {A : Type ℓ} → HiChainHandle → Result HcError A → Result Failed A
or_fail h (ok a) = ok a
or_fail h (err e) = err (h, e)

abbrev pub required {ℓ} : {A : Type ℓ} → HcError → Option A → Result HcError A
required e none = err e
required e (some a) = ok a

-- The handle, the calls of callbacks in order, and the error.
abbrev pub Outcome : Type 0
Outcome = HiChainHandle × List HcCall × Option HcError

abbrev pub failed_with : Failed → Outcome
failed_with f = (f.0, [], some f.1)
