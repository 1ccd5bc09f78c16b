-- ===== src/Server/Kernel/Info.antt =====
-- IMServer/CKernel.cpp, getInfoById and getUserInfoAndFriendInfo: what a user is sent of its own
-- data and of its friends', and what its friends are sent of it.
use instance_message.Base.{ℕ, Option, none, some, List, [], ◌∷◌, Bytes, if◌then◌else◌}
use instance_message.Text.{strcpy_s}
use instance_message.Text.Decimal.{stoi}
use instance_message.Protocol.{def_status_online, def_status_offline}
use instance_message.Protocol.Messages.{UserInfo, new_user_info, encode_user_info}
use instance_message.Server.World.{
  MySqlDriver, M, exit_called, uncaught_exception, invalid_parameter, pure, stop, or_stop, ◌>>=◌,
  ◌>>◌, print_to, socket_of, send_data,
}
use instance_message.Server.MySql.{sql_select}
use instance_message.Server.Sql.{select_friends, select_info}

abbrev pub sizeof_user_info : ℕ
sizeof_user_info = 136

abbrev pub status_of : Option ℕ → ℕ
status_of (some s) = def_status_online
status_of none = def_status_offline

module _ {d : MySqlDriver} where
  -- The three columns of the answer, copied into the struct.
  unfoldable pub fill_info : UserInfo → List Bytes → M d UserInfo
  fill_info info (name ∷ feeling ∷ icon ∷ []) = do
    name_array ← or_stop invalid_parameter (strcpy_s info.name name)
    feeling_array ← or_stop invalid_parameter (strcpy_s info.feeling feeling)
    icon_id ← or_stop uncaught_exception (stoi icon)
    pure (record info { name = name_array; feeling = feeling_array; icon_id = icon_id })
  fill_info info _ = pure info

  -- getInfoById; the output parameter is an argument and the result.
  unfoldable pub get_info_by_id : ℕ → UserInfo → M d UserInfo
  unfolding fill_info
  get_info_by_id id info = do
    socket ← socket_of id
    let stamped = record info { id = id; status = status_of socket }
    sql ← print_to 8192 (select_info id)
    (selected, list_str) ← sql_select sql 3 []
    if selected then fill_info stamped list_str else pure stamped

  -- if ( m_mapIdToSocket.count( id ) > 0 ) sendData( data, len, m_mapIdToSocket[ id ] )
  unfoldable pub send_if_online : ℕ → Bytes → ℕ → M d (Unit {0})
  send_if_online id data_buf len = do
    socket ← socket_of id
    elim socket [ none ↦ pure tt | some s ↦ send_data data_buf len s ]

  -- The loop over the ids of the friends; `friend_info` is declared once, before the loop.
  unfoldable pub send_friend_infos : ℕ → UserInfo → UserInfo → List Bytes → M d (Unit {0})
  unfolding send_if_online
  send_friend_infos id user_info friend_info [] = pure tt
  send_friend_infos id user_info friend_info (s ∷ rest) = do
    friend_id ← or_stop uncaught_exception (stoi s)
    info ← get_info_by_id friend_id friend_info
    send_if_online id (encode_user_info info) sizeof_user_info
    send_if_online friend_id (encode_user_info user_info) sizeof_user_info
    send_friend_infos id user_info info rest

  -- The user's own data to its socket, then those of its friends.
  unfoldable pub send_infos : ℕ → UserInfo → ℕ → M d (Unit {0})
  unfolding send_friend_infos
  send_infos id user_info s = do
    send_data (encode_user_info user_info) sizeof_user_info s
    sql ← print_to 8192 (select_friends id)
    (selected, list_str) ← sql_select sql 1 []
    if selected then send_friend_infos id user_info new_user_info list_str else pure tt

  unfoldable pub get_user_info_and_friend_info : ℕ → M d (Unit {0})
  unfolding send_infos
  get_user_info_and_friend_info id = do
    user_info ← get_info_by_id id new_user_info
    socket ← socket_of id
    elim socket [ none ↦ stop exit_called | some s ↦ send_infos id user_info s ]
