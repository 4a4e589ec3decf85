-- ===== src/Post/Received.antt =====
-- From AuthPostChannelData to onTcpDataReceived of the peer.
use dsoftbus_go.Base.{
  ℕ, ◌≡◌, ◌<◌, ◌≤◌, refl, ap, sym, ◌∙◌, arith, ◌==◌, nat_eq, nat_beq_iff, Bool, true, false, List,
  [], ◌∷◌, ◌++◌, append-nil, length, some, ok,
}
use dsoftbus_go.Base.Int.{pos, uint64, IsInt32, IsInt64, ltb_ℤ}
use dsoftbus_go.Types.{AuthChannelData, magic_number, auth_socket_max_data_len}
use dsoftbus_go.Receive.{Delivery, on_tcp_data_received}
use dsoftbus_go.Receive.Streams.{
  IsSendable, frame_bytes, pack-frame_bytes, pack_all, pack_all-stream,
  on_tcp_data_received-pack_all, length-frame_bytes,
}
use dsoftbus_go.Fds.{ConnectionManager, get_conn, send_bytes}
use dsoftbus_go.Post.{socket_post_bytes, auth_post_channel_data}

-- Channel data whose fields are in the range of their types, with 1 byte to 64 KB.
pub record IsChannelData (d : AuthChannelData) (payload : List ℕ) : Type 0 where
  pub module_fits : IsInt32 d.module_id
  pub seq_fits : IsInt64 d.seq
  pub flag_fits : IsInt32 d.flag
  pub has_payload : d.payload ≡ some payload
  pub len_ok : d.len ≡ length payload
  pub not_empty : 0 < d.len
  pub not_long : d.len ≤ auth_socket_max_data_len

-- What arrives at the peer.
abbrev pub as_delivery : AuthChannelData → List ℕ → Delivery
as_delivery d payload = record {
  head = record {
    magic = magic_number;
    module_id = d.module_id;
    seq = d.seq;
    flag = d.flag;
    len = d.len;
  };
  body = payload;
}

as_delivery-IsSendable :
    (d : AuthChannelData) (payload : List ℕ)
    → IsChannelData d payload
    → IsSendable (as_delivery d payload)
as_delivery-IsSendable d payload v = record {
  head_ok = record {
    magic_fits = omega arith;
    module_fits = v.module_fits;
    seq_fits = v.seq_fits;
    flag_fits = v.flag_fits;
    len_fits = omega (arith, v.not_long);
  };
  magic_ok = refl;
  not_empty = v.not_empty;
  not_long = v.not_long;
  body_size = sym v.len_ok;
}

-- One packet alone in the buffer.
pub frame_received :
    (d : Delivery)
    → IsSendable d
    → on_tcp_data_received (frame_bytes d) (length (frame_bytes d))
      ≡ some (pos (length (frame_bytes d)), d ∷ [])
frame_received d v =
    let f = frame_bytes d in
    let packed : pack_all (d ∷ []) ≡ ok f =
      pack_all-stream (d ∷ []) (v, tt) ∙ ap (λ (x : List ℕ). ok x) (append-nil f) in
    let e =
      on_tcp_data_received-pack_all (d ∷ []) f [] f [] d (v, tt) v packed refl
        (omega (arith, length-frame_bytes d v)) in
    rw (append-nil (f ++ []), append-nil f) at e

posted :
    {C : Type 0} (is_tcp : C → Bool) (m : ConnectionManager C) (n : ℕ) (d : AuthChannelData)
    (payload : List ℕ) (conn : C)
    → IsChannelData d payload
    → get_conn m (uint64 (pos n)) ≡ some conn
    → is_tcp conn ≡ true
    → auth_post_channel_data is_tcp (some m) (pos n) (some d)
      ≡ ok (conn, frame_bytes (as_delivery d payload))
unfolding auth_post_channel_data socket_post_bytes send_bytes
posted is_tcp m n d payload conn v found tcp =
    let some_len : (d.len == 0) ≡ false = ground (arith, nat_beq_iff d.len 0, v.not_empty) in
    let valid : ltb_ℤ (pos n) (pos 0) ≡ false = ground arith in
    rw (v.has_payload, auth_post_channel_data)
      (rw (some_len, valid)
        (rw
          (
            socket_post_bytes,
            pack-frame_bytes (as_delivery d payload) (as_delivery-IsSendable d payload v),
          )
          (rw (send_bytes, found) (rw tcp refl))))

-- Channel data whose fields are in range, whose length is that of its 1 byte to 64 KB, posted on a channel
-- that stands for a TCP connection, is written to this connection. The peer that reads these bytes delivers
-- one packet, with the magic number, the data's module, its sequence number, its flag, its length and its
-- bytes.
pub posted_is_received :
    {C : Type 0} (is_tcp : C → Bool) (m : ConnectionManager C) (n : ℕ) (d : AuthChannelData)
    (payload : List ℕ) (conn : C)
    → IsChannelData d payload
    → get_conn m (uint64 (pos n)) ≡ some conn
    → is_tcp conn ≡ true
    → (bytes : List ℕ) × (auth_post_channel_data is_tcp (some m) (pos n) (some d)
        ≡ ok (conn, bytes))
      × (on_tcp_data_received bytes (length bytes)
          ≡ some (pos (length bytes), as_delivery d payload ∷ []))
posted_is_received is_tcp m n d payload conn v found tcp = (
  frame_bytes (as_delivery d payload),
  posted is_tcp m n d payload conn v found tcp,
  frame_received (as_delivery d payload) (as_delivery-IsSendable d payload v),
)
