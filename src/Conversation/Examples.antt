-- ===== src/Conversation/Examples.antt =====
-- A message from user 1 to user 2, who is online as client 20 over the socket 120.
use instance_message.Base.{
  ◌≡◌, refl, true, some, lookup, [], ◌∷◌, ◌++◌, Bytes, length, int_bytes, ascii, arith,
}
use instance_message.Server.World.{done, wsa_send}
use instance_message.Server.Kernel.Dispatch.{deal_data}
use instance_message.Server.Chatting.{traced}
use instance_message.Server.Examples.{server}
use instance_message.Client.State.{Client, with_sent}
use instance_message.Client.Received.{set_dialog_info, slot_transmit_data}
use instance_message.Client.Slots.{slot_send_message}
use instance_message.Client.Examples.{plain, friend, client}
use instance_message.Conversation.{shown, chat_reaches_friend}

abbrev sender : Client
sender = client (friend 0)

abbrev receiver : Client
receiver = record sender { user_id = 2; dialogs = (1, set_dialog_info 1 []) ∷ [] }

online_as_twenty : lookup 2 (server []).online ≡ some 20
unfolding lookup
online_as_twenty = refl

twenty_is_connected : lookup 20 (server []).clients ≡ some 120
unfolding lookup
twenty_is_connected = refl

has_window : lookup 1 receiver.dialogs ≡ some (set_dialog_info 1 [])
unfolding lookup
has_window = refl

chat_reaches_friend_example :
    (packet : Bytes) × (slot_send_message plain 2 (ascii "hi") sender
      ≡ some (with_sent sender packet))
    × (deal_data packet (length packet) 10 (server [])
        ≡ done tt (traced (server []) (wsa_send 120 (int_bytes (length packet) ++ packet) ∷ [])))
    × (slot_transmit_data plain true packet receiver
        ≡ some (shown receiver 1 (set_dialog_info 1 []) (ascii "hi")))
chat_reaches_friend_example =
    chat_reaches_friend plain true (ascii "hi") 10 2 20 120 (set_dialog_info 1 []) sender receiver
      (server []) (omega arith) (omega arith) (omega arith) (omega arith) refl online_as_twenty
      twenty_is_connected has_window
