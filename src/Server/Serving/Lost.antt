-- ===== src/Server/Serving/Lost.antt =====
-- closeClient of IOCPTCPServer.cpp, which leaves m_mapIdToSocket of CKernel.cpp as it is, and what
-- becomes of chat requests for the user whose connection it closes.
use instance_message.Base.{
  ℕ, ◌≡◌, refl, sym, subst, ap, ◌∙◌, Bool, none, some, [], ◌∷◌, ◌++◌, Bytes, append-nil, lookup,
  lookup-erase_self, erase, length, int_at, arith,
}
use instance_message.Protocol.{def_chat_rq}
use instance_message.Server.World.{MySqlDriver, World, done, close_socket}
use instance_message.Server.Kernel.Dispatch.{handler_table, deal_data, call_handler}
use instance_message.Server.Dispatching.{dispatch_by_type}
use instance_message.Server.Frame.{after}
use instance_message.Server.Chatting.{traced, chat_sends, sent_over, chat_delivered_or_answered}
use instance_message.Iocp.Completion.{PerIo, completes, on_completion, client_key, close_client}
use instance_message.Iocp.Framing.{serve}
use instance_message.Server.Serving.{arrives, happen}

module _ {d : MySqlDriver} where
  -- The world after a completion without bytes, with which the system reports the end of a
  -- connection.
  abbrev ended : World d → PerIo → World d
  ended w pio = record w {
    clients = erase (client_key pio.sock) w.clients;
    trace = w.trace ++ close_socket pio.sock ∷ [];
  }

  end_closes :
      (refused : Bool) (pio : PerIo) (w : World d)
      → happen (arrives pio (completes refused [])) w ≡ done tt (ended w pio)
  unfolding happen serve on_completion close_client
  end_closes refused pio w = refl

  -- A user who is online over a client whose connection ends, by a receive that completes without
  -- bytes, stays in the map of online users under the key of the client, which is closed and
  -- forgotten; and a chat request for that user that the server handles then, with its table of
  -- handlers made, is lost: nothing is sent to anybody, the sender neither, and nothing else changes.
  pub chat_to_closed_client_is_lost :
      (buf : Bytes) (from friend : ℕ) (refused : Bool) (pio : PerIo) (w : World d)
      → w.arr_fun ≡ handler_table
      → int_at 0 buf ≡ some def_chat_rq
      → int_at 8 buf ≡ some friend
      → lookup friend w.online ≡ some (client_key pio.sock)
      → let v = after (happen (arrives pio (completes refused [])) w) in
        (lookup (client_key pio.sock) v.clients ≡ none)
        × (lookup friend v.online ≡ some (client_key pio.sock))
        × (deal_data buf (length buf) from v ≡ done tt v)
  unfolding call_handler
  chat_to_closed_client_is_lost buf from friend refused pio w t e f on =
      subst
        (λ (v : World d).
          (lookup (client_key pio.sock) v.clients ≡ none)
          × (lookup friend v.online ≡ some (client_key pio.sock))
          × (deal_data buf (length buf) from v ≡ done tt v))
        (ap after (sym (end_closes refused pio w)))
        (
          gone,
          on,
          dispatch_by_type buf (length buf) from def_chat_rq v t e (omega arith)
              ∙ chat_delivered_or_answered buf from friend v f
              ∙ ap (λ o. done tt (traced v (chat_sends v.clients buf friend from o))) on
              ∙ ap (λ o. done tt (traced v (sent_over buf o))) gone
              ∙ ap (λ l. done tt (record v { trace = l })) (append-nil v.trace),
        )
    where
      v : World d
      v = ended w pio

      gone : lookup (client_key pio.sock) v.clients ≡ none
      gone = lookup-erase_self (client_key pio.sock) w.clients
