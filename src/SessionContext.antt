-- ===== src/SessionContext.antt =====
-- pkg/context/session_context.go: what the transport and the authentication share of a session. The map
-- has pointers; an entry is changed by writing it again.
use dsoftbus_go.Base.{◌==◌, if◌then◌else◌, [], ◌∷◌, Option, none, some}
use dsoftbus_go.Base.Int.{ℤ, int_eq}
use dsoftbus_go.Base.Table.{Table, lookup, insert, delete}
use dsoftbus_go.Base.Text.{Bytes}

pub record AuthSessionContext : Type 0 where
  pub channel_id : ℤ
  pub pin_code : Bytes
  pub group_id : Bytes
  pub request_id : ℤ
  pub local_device_id : Bytes
  pub peer_device_id : Bytes

abbrev pub Contexts : Type 0
Contexts = Table ℤ AuthSessionContext

abbrev pub set_auth_session_context : Contexts → ℤ → AuthSessionContext → Contexts
set_auth_session_context t channel_id ctx = insert channel_id ctx t

abbrev pub get_auth_session_context : Contexts → ℤ → Option AuthSessionContext
get_auth_session_context t channel_id = lookup channel_id t

abbrev pub delete_auth_session_context : Contexts → ℤ → Contexts
delete_auth_session_context t channel_id = delete channel_id t

-- The first in the order of iteration.
unfoldable pub find_auth_session_context_by_request_id : Contexts → ℤ → Option AuthSessionContext
find_auth_session_context_by_request_id [] request_id = none
find_auth_session_context_by_request_id (entry ∷ t) request_id =
    if entry.1.request_id == request_id
    then some entry.1
    else find_auth_session_context_by_request_id t request_id
