-- ===== src/Server/Kernel/Chat.antt =====
-- IMServer/CKernel.cpp, dealOfflineRq and dealChatRq.
use instance_message.Base.{
  ℕ, none, some, List, [], ◌∷◌, Bytes, if◌then◌else◌, int_at, lookup, erase,
}
use instance_message.Text.Decimal.{stoi}
use instance_message.Protocol.{def_send_error}
use instance_message.Protocol.Messages.{new_chat_rs, encode_chat_rs}
use instance_message.Server.World.{
  MySqlDriver, M, done, uncaught_exception, out_of_bounds, close_socket, pure, or_stop, ◌>>=◌, ◌>>◌,
  print_to, socket_of, send_data, with_effect,
}
use instance_message.Server.MySql.{sql_select}
use instance_message.Server.Sql.{select_friends_offline}
use instance_message.Server.Kernel.Info.{send_if_online}

abbrev pub sizeof_chat_rs : ℕ
sizeof_chat_rs = 12

module _ {d : MySqlDriver} where
  -- The received packet goes to every friend that is online.
  unfoldable pub forward_to_friends : Bytes → ℕ → List Bytes → M d (Unit {0})
  forward_to_friends data_buf len [] = pure tt
  forward_to_friends data_buf len (s ∷ rest) = do
    friend_id ← or_stop uncaught_exception (stoi s)
    send_if_online friend_id data_buf len
    forward_to_friends data_buf len rest

  -- closesocket, and the entry taken out of the map.
  unfoldable pub remove_online : ℕ → M d (Unit {0})
  remove_online id w = elim (lookup id w.online) [
    | none ↦ done tt w
    | some s ↦ done tt (record (with_effect w (close_socket s)) { online = erase id w.online })
  ]

  unfoldable pub deal_offline_rq : Bytes → ℕ → ℕ → M d (Unit {0})
  unfolding forward_to_friends remove_online
  deal_offline_rq data_buf len from = do
    user_id ← or_stop out_of_bounds (int_at 4 data_buf)
    sql ← print_to 2048 (select_friends_offline user_id)
    (selected, list_str) ← sql_select sql 1 []
    if selected
        then (do forward_to_friends data_buf len list_str; remove_online user_id)
        else pure tt

  unfoldable pub deal_chat_rq : Bytes → ℕ → ℕ → M d (Unit {0})
  deal_chat_rq data_buf len from = do
    friend_id ← or_stop out_of_bounds (int_at 8 data_buf)
    socket ← socket_of friend_id
    elim socket [
      | some s ↦ send_data data_buf len s
      | none ↦
          send_data
            (encode_chat_rs (record new_chat_rs { result = def_send_error; friend_id = friend_id }))
            sizeof_chat_rs from
    ]
