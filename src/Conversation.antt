-- ===== src/Conversation.antt =====
-- A chat message on its way: slot_sendMessage of IMClient/ckernel.cpp at the sender, dealData and
-- dealChatRq of IMServer/CKernel.cpp, and slot_transmitData and dealChatRq of IMClient/ckernel.cpp
-- at the friend.
mod Examples
use instance_message.Base.{
  ℕ, ◌<◌, ◌≡◌, ap, ◌∙◌, Bool, true, some, [], ◌∷◌, ◌++◌, Bytes, length, lookup, put, int_at,
  int_bytes, two32, arith,
}
use instance_message.Text.{c_str, c_str_at, NoNul, strcpy_s, strcpy_s-fits}
use instance_message.Protocol.{def_chat_rq, def_content_max_length}
use instance_message.Protocol.Messages.{new_chat_rq, encode_chat_rq}
use instance_message.Protocol.Layout.{chat_rq_layout}
use instance_message.Server.World.{MySqlDriver, World, done, wsa_send}
use instance_message.Server.Kernel.Dispatch.{handler_table, deal_data, call_handler}
use instance_message.Server.Dispatching.{dispatch_by_type}
use instance_message.Server.Chatting.{traced, sent_over, chat_sends, chat_delivered_or_answered}
use instance_message.Client.State.{QString, Codec, Line, ChatDialog, Client, with_sent, ◌>>=◌}
use instance_message.Client.Received.{deal_chat_rq, init_fun_arr, slot_transmit_data}
use instance_message.Client.Slots.{slot_send_message}

abbrev pub chat_packet : (user_id friend_id : ℕ) → (content : Bytes) → Bytes
chat_packet user_id friend_id content =
    encode_chat_rq
      (record new_chat_rq { user_id = user_id; friend_id = friend_id; content = content })

sends :
    (codec : Codec) (friend : ℕ) (content : QString) (array : Bytes) (c : Client)
    → strcpy_s new_chat_rq.content (codec.to_std_string content) ≡ some array
    → slot_send_message codec friend content c
      ≡ some (with_sent c (chat_packet c.user_id friend array))
unfolding slot_send_message
sends codec friend content array c e =
    ap (λ o. o >>= λ a. some (with_sent c (chat_packet c.user_id friend a))) e

-- The friend's window for the sender, with the message at its end, opened.
abbrev pub shown : Client → ℕ → ChatDialog → Bytes → Client
shown c user dialog text = record c {
  dialogs =
      put user (record dialog { chat = dialog.chat ++ Line.theirs text ∷ []; visible = true })
        c.dialogs;
}

shows :
    (codec : Codec) (yes_answer : Bool) (buf text : Bytes) (user : ℕ) (dialog : ChatDialog)
    (c : Client)
    → int_at 0 buf ≡ some def_chat_rq
    → int_at 4 buf ≡ some user
    → c_str_at 12 buf ≡ some text
    → lookup user c.dialogs ≡ some dialog
    → slot_transmit_data codec yes_answer buf c ≡ some (shown c user dialog text)
unfolding slot_transmit_data deal_chat_rq init_fun_arr
shows codec yes_answer buf text user dialog c t u k o = rw t (ground arith)

-- The effect of the packet at the server: it goes on to the client of the friend, unchanged.
relayed :
    {d : MySqlDriver} (buf : Bytes) (from friend socket s : ℕ) (w : World d)
    → w.arr_fun ≡ handler_table
    → int_at 0 buf ≡ some def_chat_rq
    → int_at 8 buf ≡ some friend
    → lookup friend w.online ≡ some socket
    → lookup socket w.clients ≡ some s
    → deal_data buf (length buf) from w
      ≡ done tt (traced w (wsa_send s (int_bytes (length buf) ++ buf) ∷ []))
unfolding call_handler
relayed buf from friend socket s w t e f o k =
    dispatch_by_type buf (length buf) from def_chat_rq w t e (omega arith)
    ∙ chat_delivered_or_answered buf from friend w f
    ∙ ap (λ l. done tt (traced w (chat_sends w.clients buf friend from l))) o
    ∙ ap (λ l. done tt (traced w (sent_over buf l))) k

-- A message of less than 8192 bytes without a NUL reaches a friend that is online over a connected
-- client, in one packet:
-- the sender's client hands the packet to its network, the server, with its table initialised,
-- sends the same bytes behind their length to the friend's socket and does nothing else, and the
-- friend's client, which has a window for the sender, shows the text at the end of the window.
-- The ids are 32-bit.
pub chat_reaches_friend :
    {d : MySqlDriver} (codec : Codec) (yes_answer : Bool) (content : QString)
    (from friend socket s : ℕ) (dialog : ChatDialog) (sender receiver : Client) (w : World d)
    → length (codec.to_std_string content) < def_content_max_length
    → NoNul (codec.to_std_string content)
    → sender.user_id < two32
    → friend < two32
    → w.arr_fun ≡ handler_table
    → lookup friend w.online ≡ some socket
    → lookup socket w.clients ≡ some s
    → lookup sender.user_id receiver.dialogs ≡ some dialog
    → (packet : Bytes) × (slot_send_message codec friend content sender
        ≡ some (with_sent sender packet))
      × (deal_data packet (length packet) from w
          ≡ done tt (traced w (wsa_send s (int_bytes (length packet) ++ packet) ∷ [])))
      × (slot_transmit_data codec yes_answer packet receiver
          ≡ some (shown receiver sender.user_id dialog (codec.to_std_string content)))
chat_reaches_friend codec yes_answer content from friend socket s dialog sender receiver w len clean
      u f t o k g =
    let (array, copy, size, reads) =
      strcpy_s-fits new_chat_rq.content (codec.to_std_string content) len clean in
    let m = record new_chat_rq { user_id = sender.user_id; friend_id = friend; content = array } in
    let (type, user, to, body) = chat_rq_layout m (omega arith) u f in
    (
      chat_packet sender.user_id friend array,
      sends codec friend content array sender copy,
      relayed _ from friend socket s w t type to o k,
      shows codec yes_answer _ (codec.to_std_string content) sender.user_id dialog receiver type
          user (ap c_str body ∙ reads) g,
    )
