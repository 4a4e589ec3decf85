-- ===== src/HiChain/Store.antt =====
-- pkg/device_auth/hichain/key_store.go: the cache of long-term keys. A nil slice is an empty list, except
-- for GetLocalPrivateKey's, whose callers ask whether it is nil.
use dsoftbus_go.Base.{nat_eq, [], Option, none, some}
use dsoftbus_go.Base.Int.{ℤ, pos}
use dsoftbus_go.Base.Table.{Table, lookup, insert, delete}
use dsoftbus_go.Base.Text.{Bytes, list_eq}

pub record DeviceAuthInfo : Type 0 where
  pub device_id : Bytes
  pub public_key : Bytes
  pub private_key : Option Bytes
  pub session_key : Bytes
  pub last_auth_time : ℤ

abbrev pub DeviceAuthStore : Type 0
DeviceAuthStore = Table Bytes DeviceAuthInfo

unfoldable pub save_device_auth_info : DeviceAuthStore → Bytes → Bytes → DeviceAuthStore
save_device_auth_info s id key = elim (lookup id s) [
  | some info ↦ insert id (record info { public_key = key }) s
  | none ↦
      insert id
        (record {
          device_id = id;
          public_key = key;
          private_key = none;
          session_key = [];
          last_auth_time = pos 0;
        })
        s
]

abbrev pub get_device_auth_info : DeviceAuthStore → Bytes → Option DeviceAuthInfo
get_device_auth_info s id = lookup id s

unfoldable pub save_local_private_key : DeviceAuthStore → Bytes → Bytes → Bytes → DeviceAuthStore
save_local_private_key s id private_key public_key = elim (lookup id s) [
  | some info ↦
      insert id (record info { private_key = some private_key; public_key = public_key }) s
  | none ↦
      insert id
        (record {
          device_id = id;
          public_key = public_key;
          private_key = some private_key;
          session_key = [];
          last_auth_time = pos 0;
        })
        s
]

-- The private key, where there is one, and the public key.
unfoldable pub get_local_private_key : DeviceAuthStore → Bytes → Option (Bytes × Bytes)
get_local_private_key s id = elim (lookup id s) [
  | none ↦ none
  | some info ↦ elim info.private_key [ none ↦ none | some key ↦ some (key, info.public_key) ]
]

unfoldable pub clear_device_auth_info : DeviceAuthStore → Bytes → DeviceAuthStore
clear_device_auth_info s id = delete id s
