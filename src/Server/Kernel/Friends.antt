-- ===== src/Server/Kernel/Friends.antt =====
-- IMServer/CKernel.cpp, dealAddFriendRq and dealAddFriendRs.
use instance_message.Base.{ℕ, Bool, false, none, some, [], ◌∷◌, Bytes, if◌then◌else◌, ◌==◌, int_at}
use instance_message.Text.{strcpy_s, format_only}
use instance_message.Text.Decimal.{stoi}
use instance_message.Protocol.{
  def_add_friend_success, def_add_friend_not_exists, def_add_friend_offlien,
}
use instance_message.Protocol.Messages.{new_add_friend_rs, encode_add_friend_rs}
use instance_message.Server.World.{
  MySqlDriver, M, uncaught_exception, out_of_bounds, invalid_parameter, pure, or_stop, ◌>>=◌, ◌>>◌,
  c_str_from, print_to, socket_of, send_data,
}
use instance_message.Server.MySql.{sql_select, sql_update}
use instance_message.Server.Sql.{select_id, insert_friend}
use instance_message.Server.Kernel.Info.{get_user_info_and_friend_info, send_if_online}

abbrev pub sizeof_add_friend_rs : ℕ
sizeof_add_friend_rs = 36

module _ {d : MySqlDriver} where
  -- rs.result, rs.friendName and the reply to the client that asked.
  unfoldable pub reply_add_friend : ℕ → Bytes → ℕ → M d (Unit {0})
  reply_add_friend result friend_name from = do
    copied ← or_stop invalid_parameter (strcpy_s new_add_friend_rs.friend_name friend_name)
    send_data
        (encode_add_friend_rs (record new_add_friend_rs { result = result; friend_name = copied }))
        sizeof_add_friend_rs from

  -- The friend is offline: the name is handed to `sprintf_s` as its format.
  unfoldable pub reply_offline : Bytes → ℕ → M d (Unit {0})
  unfolding reply_add_friend
  reply_offline friend_name from = do
    printed ← or_stop out_of_bounds (format_only friend_name)
    reply_add_friend def_add_friend_offlien printed from

  unfoldable pub deal_add_friend_rq : Bytes → ℕ → ℕ → M d (Unit {0})
  unfolding reply_add_friend reply_offline
  deal_add_friend_rq data_buf len from = do
    friend_name ← c_str_from 28 data_buf
    sql ← print_to 1024 (select_id friend_name)
    (selected, list_str) ← sql_select sql 1 []
    if selected
        then (elim list_str [
          | [] ↦ reply_add_friend def_add_friend_not_exists friend_name from
          | id_text ∷ _ ↦ do
            friend_id ← or_stop uncaught_exception (stoi id_text)
            socket ← socket_of friend_id
            elim socket [
              | some s ↦ send_data data_buf len s
              | none ↦ reply_offline friend_name from
            ]
        ])
        else pure tt

  -- Both directions of the friendship; false when an insertion fails.
  unfoldable pub store_friendship : ℕ → ℕ → M d Bool
  store_friendship friend_id user_id = do
    sql ← print_to 2048 (insert_friend friend_id user_id)
    updated ← sql_update sql
    if updated
        then (do back ← print_to 2048 (insert_friend user_id friend_id); sql_update back)
        else pure false

  unfoldable pub deal_add_friend_rs : Bytes → ℕ → ℕ → M d (Unit {0})
  unfolding store_friendship
  deal_add_friend_rs data_buf len from = do
    result ← or_stop out_of_bounds (int_at 4 data_buf)
    if def_add_friend_success == result
        then (do
          friend_id ← or_stop out_of_bounds (int_at 8 data_buf)
          user_id ← or_stop out_of_bounds (int_at 12 data_buf)
          stored ← store_friendship friend_id user_id
          if stored
              then (do
                get_user_info_and_friend_info friend_id
                send_if_online friend_id data_buf len)
              else pure tt)
        else (do
          friend_id ← or_stop out_of_bounds (int_at 8 data_buf)
          send_if_online friend_id data_buf len)
