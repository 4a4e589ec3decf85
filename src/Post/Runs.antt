-- ===== src/Post/Runs.antt =====
-- A message that is posted, and the theorem at a concrete input. A connection is a number here.
use dsoftbus_go.Base.{ℕ, ◌≡◌, refl, arith, Bool, true, List, [], ◌∷◌, length, some, ok, err}
use dsoftbus_go.Base.Int.{pos, negsuc, uint64}
use dsoftbus_go.Base.Table.{lookup, insert}
use dsoftbus_go.Types.{AuthChannelData}
use dsoftbus_go.Receive.{on_tcp_data_received}
use dsoftbus_go.Fds.{
  ConnectionManager, new_connection_manager, register_conn, allocate_fd, client, get_conn,
}
use dsoftbus_go.Post.{auth_post_channel_data, invalid_parameters}
use dsoftbus_go.Post.Received.{IsChannelData, as_delivery, posted_is_received}

abbrev all_tcp : ℕ → Bool
all_tcp conn = true

abbrev one_client : ConnectionManager ℕ
one_client = (register_conn new_connection_manager 7 client).0

abbrev hello_data : AuthChannelData
hello_data = record {
  module_id = pos 9;
  seq = pos 3;
  flag = pos 0;
  len = 2;
  payload = some (104 ∷ 105 ∷ []);
}

hello_data-IsChannelData : IsChannelData hello_data (104 ∷ 105 ∷ [])
hello_data-IsChannelData = record {
  module_fits = omega arith;
  seq_fits = omega arith;
  flag_fits = omega arith;
  has_payload = refl;
  len_ok = refl;
  not_empty = omega arith;
  not_long = omega arith;
}

negative_channel :
    auth_post_channel_data all_tcp (some one_client) (negsuc 0) (some hello_data)
    ≡ err invalid_parameters
unfolding auth_post_channel_data
negative_channel = refl

posted_is_received_example :
    (bytes : List ℕ) × (auth_post_channel_data all_tcp
        (some one_client)
        (pos 2000)
        (some hello_data)
      ≡ ok (7, bytes))
    × (on_tcp_data_received bytes (length bytes)
        ≡ some (pos (length bytes), as_delivery hello_data (104 ∷ 105 ∷ []) ∷ []))
unfolding get_conn register_conn allocate_fd lookup insert uint64
posted_is_received_example =
    posted_is_received all_tcp one_client 2000 hello_data (104 ∷ 105 ∷ []) 7
      hello_data-IsChannelData refl refl
