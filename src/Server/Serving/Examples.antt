-- ===== src/Server/Serving/Examples.antt =====
-- A chat request between two other packets, at the server of Server/Examples.
use instance_message.Base.{
  ◌≡◌, refl, inr, none, false, lookup, length, some, [], ◌∷◌, ◌++◌, List, Bytes, int_at, int_bytes,
  arith,
}
use instance_message.Protocol.{def_chat_rq}
use instance_message.Server.World.{Handler, done, stopped, out_of_bounds}
use instance_message.Server.Kernel.Dispatch.{start_server, handler_table, deal_data}
use instance_message.Server.Dispatching.{handler_for, handled_by}
use instance_message.Server.Frame.{after, Same}
use instance_message.Server.Examples.{server}
use instance_message.Server.Serving.{
  Happening, packet, accepts, arrives, happen, happen_all, served_by_type,
}
use instance_message.Server.Serving.Lost.{chat_to_closed_client_is_lost}
use instance_message.Iocp.Completion.{OpType, PerIo, completes}
use instance_message.Protocol.Messages.{new_chat_rq, encode_chat_rq}
use instance_message.Server.Online.{others_keep_online}
use instance_message.Server.Short.{short_packet_read_outside}

-- A chat request of 8 bytes.
abbrev cut_off : Bytes
cut_off = int_bytes def_chat_rq ++ int_bytes 1

cut_off_typed : int_at 0 cut_off ≡ some def_chat_rq
unfolding int_at int_bytes
cut_off_typed = refl

-- The operation of the client whose socket is 10.
abbrev of_ten : PerIo
of_ten = record {
  op_type = OpType.op_recv_header;
  sock = 10;
  wanted = 4;
  body_len = 0;
  body_buf = false;
  send_only = false;
}

-- A packet of a type that has no handler, a new connection, and the end of the one of socket 10.
abbrev before : List Happening
before =
    packet (record { buf = int_bytes 77; len = 4; from = 10 })
    ∷ accepts 40
    ∷ arrives of_ten (completes false [])
    ∷ []

others_keep_online_example : Same (server []) (after (deal_data cut_off 8 10 (server [])))
others_keep_online_example =
    others_keep_online cut_off 8 10 def_chat_rq (server []) refl cut_off_typed (omega arith)
      (λ e. absurd (omega arith)) (λ e. absurd (omega arith))

served_by_type_example :
    let v = after (happen_all before (after (start_server (server [])))) in
    (v.arr_fun ≡ handler_table)
    × (deal_data cut_off 8 10 v ≡ handled_by (handler_for def_chat_rq) cut_off 8 10 v)
served_by_type_example =
    served_by_type before (server []) cut_off 8 10 def_chat_rq cut_off_typed (omega arith)

-- A chat request of user 5 for user 1, whose client is the one of socket 10.
abbrev for_one : Bytes
for_one = encode_chat_rq (record new_chat_rq { user_id = 5; friend_id = 1 })

for_one_read : (int_at 0 for_one ≡ some def_chat_rq) × (int_at 8 for_one ≡ some 1)
unfolding int_at encode_chat_rq int_bytes
for_one_read = (refl, refl)

one_online : lookup 1 (server []).online ≡ some 10
unfolding lookup
one_online = refl

chat_to_closed_client_is_lost_example :
    let v = after (happen (arrives of_ten (completes false [])) (server [])) in
    (lookup 10 v.clients ≡ none)
    × (lookup 1 v.online ≡ some 10)
    × (deal_data for_one (length for_one) 30 v ≡ done tt v)
chat_to_closed_client_is_lost_example =
    chat_to_closed_client_is_lost for_one 30 1 false of_ten (server []) refl for_one_read.0
      for_one_read.1 one_online

short_packet_read_outside_example :
    deal_data cut_off 8 10 (server []) ≡ stopped out_of_bounds (server [])
unfolding int_bytes
short_packet_read_outside_example =
    short_packet_read_outside cut_off 8 10 (server []) refl
      (inr (def_chat_rq, Handler.chat_rq, cut_off_typed, omega arith, refl, omega arith))
