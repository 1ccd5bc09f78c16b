-- ===== src/Server/Chatting.antt =====
-- dealChatRq and dealOfflineRq of CKernel.cpp: who is sent what.
use instance_message.Base.{
  ℕ, ◌≡◌, refl, Option, none, some, ◌++◌, Bytes, length, lookup, int_at, int_bytes, arith, take_all,
  append-nil, sym, ap, ◌∙◌, List, [], ◌∷◌, Map,
}
use instance_message.Protocol.{def_send_error}
use instance_message.Protocol.Messages.{new_chat_rs, encode_chat_rs}
use instance_message.Server.World.{MySqlDriver, Effect, World, M, done, wsa_send, send_data}
use instance_message.Server.Kernel.Chat.{deal_chat_rq}

length-chat_rs :
    (friend : ℕ)
    → length (encode_chat_rs (record new_chat_rs { friend_id = friend; result = def_send_error }))
      ≡ 12
unfolding encode_chat_rs int_bytes
length-chat_rs friend = refl

-- What a packet to one client comes to: a send behind its length, if it is connected.
abbrev pub sent_over : Bytes → Option ℕ → List Effect
sent_over buf none = []
sent_over buf (some s) = wsa_send s (int_bytes (length buf) ++ buf) ∷ []

-- The answer of a chat request for a friend that is not online.
abbrev pub not_online : ℕ → Bytes
not_online friend =
    encode_chat_rs (record new_chat_rs { friend_id = friend; result = def_send_error })

-- What a chat request from a client comes to: the packet itself to the client of the friend, or the
-- answer to the sender.
abbrev pub chat_sends : Map ℕ → Bytes → (friend from : ℕ) → Option ℕ → List Effect
chat_sends clients buf friend from (some socket) = sent_over buf (lookup socket clients)
chat_sends clients buf friend from none = sent_over (not_online friend) (lookup from clients)

module _ {d : MySqlDriver} where
  abbrev pub traced : World d → List Effect → World d
  traced w es = record w { trace = w.trace ++ es }

  pub send_data-delivery :
      (socket : ℕ) (buf : Bytes) (w : World d)
      → send_data buf (length buf) socket w
        ≡ done tt (traced w (sent_over buf (lookup socket w.clients)))
  unfolding send_data
  send_data-delivery socket buf w = ground (arith, append-nil w.trace, take_all (length buf) buf)

  -- A chat request for a friend that is online is sent on unchanged, behind its length, to the
  -- friend's client alone, if that is connected; and one for a friend that is not online is
  -- answered to its sender, if that is connected, with the error code and the id of the friend. In
  -- each case nothing else changes and the handler returns.
  pub chat_delivered_or_answered :
      (buf : Bytes) (from friend : ℕ) (w : World d)
      → int_at 8 buf ≡ some friend
      → deal_chat_rq buf (length buf) from w
        ≡ done tt (traced w (chat_sends w.clients buf friend from (lookup friend w.online)))
  unfolding deal_chat_rq
  chat_delivered_or_answered buf from friend w e = rw e (routed (lookup friend w.online))
    where
      routed :
          (o : Option ℕ)
          → (elim o as (λ _. M d (Unit {0})) [
            | some s ↦ send_data buf (length buf) s
            | none ↦ send_data (not_online friend) 12 from
          ])
              w
            ≡ done tt (traced w (chat_sends w.clients buf friend from o))
      routed (some s) = send_data-delivery s buf w
      routed none =
          ap (λ k. send_data (not_online friend) k from w) (sym (length-chat_rs friend))
          ∙ send_data-delivery from (not_online friend) w
