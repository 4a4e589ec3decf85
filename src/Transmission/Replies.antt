-- ===== src/Transmission/Replies.antt =====
-- Answers on module 8 end the exchange.
use dsoftbus_go.Base.{nat_eq, ◌≡◌, refl, ◌==◌, [], All, Option-cases, Bool-cases, inl, inr}
use dsoftbus_go.Base.Int.{ℤ, pos, int_eq}
use dsoftbus_go.Types.{AuthChannelData, module_auth_channel}
use dsoftbus_go.Transmission.Messages.{TransJson}
use dsoftbus_go.Transmission.Handlers.{
  TransAnswers, TransCall, posted, on_auth_channel_data_recv, clean_json_data, payload_of, answer,
  reply_to,
}

-- The call sends an answer to `d` on the channel, and every device drops it.
pub record IsLastAnswer (js : TransJson) (channel_id : ℤ) (d : AuthChannelData) (c : TransCall)
    : Type 0 where
  pub reply : AuthChannelData
  pub is_posted : c ≡ posted channel_id reply
  pub same_module : reply.module_id ≡ module_auth_channel
  pub same_seq : reply.seq ≡ d.seq
  pub dropped : (a : TransAnswers) (ch : ℤ) → on_auth_channel_data_recv js a ch reply ≡ []

-- Whatever arrives for a channel, onAuthChannelDataRecv sends nothing but answers on that channel with the
-- number of the request, and a device that gets such an answer sends nothing: two devices never answer each
-- other without end.
pub answers_are_last :
    (js : TransJson) (a : TransAnswers) (channel_id : ℤ) (d : AuthChannelData)
    → All (IsLastAnswer js channel_id d) (on_auth_channel_data_recv js a channel_id d)
unfolding on_auth_channel_data_recv
answers_are_last js a channel_id d = elim (Bool-cases (d.flag == pos 0)) [
  | inr e ↦ rw (e, on_auth_channel_data_recv) tt
  | inl e ↦ elim (Option-cases (js.channel_request (clean_json_data (payload_of d)))) [
    | inl e1 ↦ rw (e, e1, on_auth_channel_data_recv) tt
    | inr (req, e1) ↦ elim (Option-cases a.local_udid) [
      | inl e2 ↦ rw (e, e1, e2, on_auth_channel_data_recv) tt
      | inr (udid, e2) ↦
          rw (e, e1, e2, on_auth_channel_data_recv)
            (
              record {
                reply =
                    answer module_auth_channel (pos 1) d.seq
                      (js.channel_reply (reply_to js req udid));
                is_posted = refl;
                same_module = refl;
                same_seq = refl;
                dropped = λ a' ch. refl;
              },
              tt,
            )
    ]
  ]
]
