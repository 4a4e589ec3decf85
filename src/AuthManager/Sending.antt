-- ===== src/AuthManager/Sending.antt =====
-- From AuthDevicePostTransData of auth_manager.go to the packet that the peer gets.
use dsoftbus_go.Base.{
  ℕ, nat_eq, ◌≡◌, ◌<◌, ◌≤◌, ◌%◌, ◌^◌, ◌∙◌, ap, refl, Bool, true, List, [], ◌∷◌, length, some, ok,
  arith,
}
use dsoftbus_go.Base.Int.{ℤ, pos, uint64, int_eq, IsInt32, IsInt64}
use dsoftbus_go.Base.Table.{lookup}
use dsoftbus_go.Types.{AuthDataHead, magic_number, module_to_data_type, auth_socket_max_data_len}
use dsoftbus_go.Receive.{Delivery, on_tcp_data_received}
use dsoftbus_go.Receive.Streams.{IsSendable, frame_bytes, pack-frame_bytes}
use dsoftbus_go.Fds.{ConnectionManager, get_conn, send_bytes}
use dsoftbus_go.Post.Received.{frame_received}
use dsoftbus_go.Post
use dsoftbus_go.Conn.{AuthConnectionManager, AuthConnection, socket_post_bytes, post_auth_data}
use dsoftbus_go.AuthManager.{AuthManager, AuthWorld}
use dsoftbus_go.AuthManager.ById.{auth_device_post_trans_data, manager_of, trans_head}

-- The head of the data, and what the peer gets.
abbrev pub sent_head : AuthManager → ℤ → ℤ → List ℕ → AuthDataHead
sent_head m module_id flag payload = record {
  data_type = module_to_data_type module_id;
  module_id = module_id;
  seq = m.auth_seq;
  flag = flag;
  len = length payload;
}

abbrev pub trans_delivery : AuthManager → ℤ → ℤ → List ℕ → Delivery
trans_delivery m module_id flag payload = record {
  head = record {
    magic = magic_number;
    module_id = module_id;
    seq = m.auth_seq;
    flag = flag;
    len = length payload;
  };
  body = payload;
}

-- Fields in the range of their types, and 1 byte to 64 KB of data.
pub record IsTransData (m : AuthManager) (module_id flag : ℤ) (payload : List ℕ) : Type 0 where
  pub module_fits : IsInt32 module_id
  pub seq_fits : IsInt64 m.auth_seq
  pub flag_fits : IsInt32 flag
  pub not_empty : 0 < length payload
  pub not_long : length payload ≤ auth_socket_max_data_len

trans_delivery-IsSendable :
    (m : AuthManager) (module_id flag : ℤ) (payload : List ℕ)
    → IsTransData m module_id flag payload
    → IsSendable (trans_delivery m module_id flag payload)
trans_delivery-IsSendable m module_id flag payload v = record {
  head_ok = record {
    magic_fits = omega arith;
    module_fits = v.module_fits;
    seq_fits = v.seq_fits;
    flag_fits = v.flag_fits;
    len_fits = omega (arith, v.not_long);
  };
  magic_ok = refl;
  not_empty = v.not_empty;
  not_long = v.not_long;
  body_size = refl;
}

head_sent :
    (m : AuthManager) (module_id flag : ℤ) (payload : List ℕ)
    → length payload ≤ auth_socket_max_data_len
    → trans_head m module_id flag payload ≡ sent_head m module_id flag payload
head_sent m module_id flag payload l =
    let short : length payload % 2 ^ 32 ≡ length payload = omega (arith, l) in
    ap
      (λ (n : ℕ). record {
        data_type = module_to_data_type module_id;
        module_id = module_id;
        seq = m.auth_seq;
        flag = flag;
        len = n;
      })
      short

posted :
    (w : AuthWorld) (c : AuthConnectionManager) (auth_id : ℤ) (m : AuthManager)
    (conn : AuthConnection) (module_id flag : ℤ) (payload : List ℕ) (now : ℕ)
    → w.service.initialized ≡ true
    → w.connections ≡ some c
    → lookup auth_id w.service.managers ≡ some m
    → lookup m.conn_id c.connections ≡ some conn
    → (auth_device_post_trans_data w auth_id module_id flag payload now).1
      ≡ ok (socket_post_bytes conn.fd (trans_head m module_id flag payload) payload)
unfolding auth_device_post_trans_data manager_of post_auth_data
posted w c auth_id m conn module_id flag payload now i cs e l =
    let found : manager_of w.service auth_id ≡ ok m = ground arith in
    rw (found, auth_device_post_trans_data) (rw (cs, post_auth_data) (rw (l, post_auth_data) refl))

written :
    {C : Type 0} (is_tcp : C → Bool) (sockets : ConnectionManager C) (fd : ℤ) (socket : C)
    (m : AuthManager) (module_id flag : ℤ) (payload : List ℕ)
    → IsTransData m module_id flag payload
    → get_conn sockets (uint64 fd) ≡ some socket
    → is_tcp socket ≡ true
    → Post.socket_post_bytes is_tcp
        (some sockets)
        fd
        (some (sent_head m module_id flag payload))
        (some payload)
      ≡ ok (socket, frame_bytes (trans_delivery m module_id flag payload))
unfolding Post.socket_post_bytes send_bytes
written is_tcp sockets fd socket m module_id flag payload v found tcp =
    let d = trans_delivery m module_id flag payload in
    let packed = pack-frame_bytes d (trans_delivery-IsSendable m module_id flag payload v) in
    rw (packed, Post.socket_post_bytes) (rw (found, send_bytes) (rw tcp refl))

-- The service is initialised, `auth_id` has a manager, its connection is in the connection manager, and the
-- connection's descriptor has a TCP socket; the fields are in range and there are 1 byte to 64 KB of data.
-- Then AuthDevicePostTransData posts the data to the descriptor, the socket layer writes one packet to the
-- socket, and onTcpDataReceived, given the packet's bytes, delivers just this: the magic number, the
-- module, the manager's sequence number, the flag, the length and the data.
pub trans_data_is_received :
    {C : Type 0} (is_tcp : C → Bool) (sockets : ConnectionManager C) (socket : C) (w : AuthWorld)
    (c : AuthConnectionManager) (auth_id : ℤ) (m : AuthManager) (conn : AuthConnection)
    (module_id flag : ℤ) (payload : List ℕ) (now : ℕ)
    → w.service.initialized ≡ true
    → w.connections ≡ some c
    → lookup auth_id w.service.managers ≡ some m
    → lookup m.conn_id c.connections ≡ some conn
    → get_conn sockets (uint64 conn.fd) ≡ some socket
    → is_tcp socket ≡ true
    → IsTransData m module_id flag payload
    → let d = trans_delivery m module_id flag payload in
      let bytes = frame_bytes d in
      ((auth_device_post_trans_data w auth_id module_id flag payload now).1
        ≡ ok (socket_post_bytes conn.fd (sent_head m module_id flag payload) payload))
      × (Post.socket_post_bytes is_tcp
            (some sockets)
            conn.fd
            (some (sent_head m module_id flag payload))
            (some payload)
          ≡ ok (socket, bytes))
      × (on_tcp_data_received bytes (length bytes) ≡ some (pos (length bytes), d ∷ []))
trans_data_is_received is_tcp sockets socket w c auth_id m conn module_id flag payload now i cs e l
      found tcp v =
    (
      posted w c auth_id m conn module_id flag payload now i cs e l
          ∙ ap (λ (h : AuthDataHead). ok (socket_post_bytes conn.fd h payload))
              (head_sent m module_id flag payload v.not_long),
      written is_tcp sockets conn.fd socket m module_id flag payload v found tcp,
      frame_received (trans_delivery m module_id flag payload)
          (trans_delivery-IsSendable m module_id flag payload v),
    )
