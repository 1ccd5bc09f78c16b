-- ===== src/Delivery/Examples.antt =====
-- A short chat message from user 1 to user 2, and what the client of user 2 receives.
use instance_message.Base.{
  ℕ, ◌≡◌, refl, ◌<◌, int_at, lookup, put, [], ◌∷◌, ◌++◌, List, Bytes, ascii, arith, length,
  int_bytes,
}
use instance_message.Protocol.Messages.{new_chat_rq, encode_chat_rq}
use instance_message.Server.World.{send_data}
use instance_message.Server.Kernel.Dispatch.{deal_data, handler_table, call_handler}
use instance_message.Server.Kernel.Chat.{deal_chat_rq}
use instance_message.Server.Examples.{server}
use instance_message.Client.TcpClient.{recv_data}
use instance_message.Client.Reassembly.{Cut, calls}
use instance_message.Server.Serving.{Happening, packet, accepts, happen, happen_all}
use instance_message.Iocp.Completion.{accept_client}
use instance_message.Delivery.{stream_to, packets_to, sent_by, client_reads_server}

abbrev hello : Bytes
hello =
    encode_chat_rq
      (record new_chat_rq { user_id = 1; friend_id = 2; content = ascii "hi" ++ (0 ∷ []) })

abbrev handled : List Happening
handled = accepts 40 ∷ packet (record { buf = hello; len = 15; from = 10 }) ∷ []

abbrev pieces : List (List ℕ)
pieces = (7 ∷ 8 ∷ []) ∷ []

one_packet :
    (length (packets_to 120 (sent_by handled (server []))) < 2)
    × Cut (packets_to 120 (sent_by handled (server []))) pieces
unfolding happen_all happen accept_client put deal_data int_at encode_chat_rq int_bytes
    handler_table call_handler deal_chat_rq lookup send_data
one_packet = omega arith

client_reads_server_example :
    recv_data 2 0 (stream_to 120 (sent_by handled (server []))) (calls pieces)
    ≡ packets_to 120 (sent_by handled (server []))
client_reads_server_example =
    client_reads_server handled (server []) 120 2 0 pieces (omega arith) refl one_packet.0
      one_packet.1
