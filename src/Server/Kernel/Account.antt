-- ===== src/Server/Kernel/Account.antt =====
-- IMServer/CKernel.cpp, dealRegisterRq and dealLoginRq.
use instance_message.Base.{ℕ, List, [], ◌∷◌, Bytes, if◌then◌else◌, bytes_eq, put}
use instance_message.Text.Decimal.{stoi}
use instance_message.Protocol.{
  def_rigister_success, def_register_tel_exists, def_register_name_exists, def_login_success,
  def_login_tel_not_register, def_login_password_error,
}
use instance_message.Protocol.Messages.{
  new_register_rs, encode_register_rs, new_login_rs, encode_login_rs,
}
use instance_message.Server.World.{
  MySqlDriver, M, done, uncaught_exception, out_of_bounds, pure, stop, or_stop, ◌>>=◌, ◌>>◌,
  c_str_from, print_to, send_data,
}
use instance_message.Server.MySql.{sql_select, sql_update}
use instance_message.Server.Sql.{select_tel, select_name, select_pass, insert_user}
use instance_message.Server.Kernel.Info.{get_user_info_and_friend_info}

abbrev pub sizeof_register_rs : ℕ
sizeof_register_rs = 8

abbrev pub sizeof_login_rs : ℕ
sizeof_login_rs = 12

module _ {d : MySqlDriver} where
  unfoldable pub reply_register : ℕ → ℕ → M d (Unit {0})
  reply_register result from =
      send_data (encode_register_rs (record new_register_rs { result = result })) sizeof_register_rs
        from

  -- The telephone number is free: look for the name, and store the user if that is free too.
  unfoldable pub register_new_tel : Bytes → Bytes → ℕ → M d (Unit {0})
  unfolding reply_register
  register_new_tel data_buf tel from = do
    name ← c_str_from 36 data_buf
    sql ← print_to 2064 (select_name name)
    (selected, list_str) ← sql_select sql 1 []
    if selected
        then (elim list_str [
          | _ ∷ _ ↦ reply_register def_register_name_exists from
          | [] ↦ do
            password ← c_str_from 16 data_buf
            insert ← print_to 2064 (insert_user name tel password)
            updated ← sql_update insert
            if updated then reply_register def_rigister_success from else pure tt
        ])
        else pure tt

  unfoldable pub deal_register_rq : Bytes → ℕ → ℕ → M d (Unit {0})
  unfolding register_new_tel reply_register
  deal_register_rq data_buf len from = do
    tel ← c_str_from 4 data_buf
    sql ← print_to 2064 (select_tel tel)
    (selected, list_str) ← sql_select sql 1 []
    if selected
        then (elim list_str [
          | _ ∷ _ ↦ reply_register def_register_tel_exists from
          | [] ↦ register_new_tel data_buf tel from
        ])
        else pure tt

  unfoldable pub reply_login : ℕ → ℕ → ℕ → M d (Unit {0})
  reply_login result id from =
      send_data (encode_login_rs (record new_login_rs { result = result; id = id })) sizeof_login_rs
        from

  -- m_mapIdToSocket[ id ] = from
  abbrev pub set_online : ℕ → ℕ → M d (Unit {0})
  set_online id from w = done tt (record w { online = put id from w.online })

  -- The reply, the entry in the map and the user's data, in this order.
  unfoldable pub log_in : ℕ → ℕ → M d (Unit {0})
  unfolding reply_login
  log_in id from = do
    reply_login def_login_success id from
    set_online id from
    get_user_info_and_friend_info id

  -- The password and the id that the database holds, against the password of the request.
  unfoldable pub check_password : Bytes → List Bytes → ℕ → M d (Unit {0})
  unfolding log_in
  check_password password [] from = reply_login def_login_tel_not_register 0 from
  check_password password (_ ∷ []) from = stop out_of_bounds
  check_password password (stored ∷ id_text ∷ _) from = do
    id ← or_stop uncaught_exception (stoi id_text)
    if bytes_eq stored password then log_in id from else reply_login def_login_password_error 0 from

  -- Both strings are read first, for the log.
  unfoldable pub deal_login_rq : Bytes → ℕ → ℕ → M d (Unit {0})
  unfolding check_password
  deal_login_rq data_buf len from = do
    tel ← c_str_from 4 data_buf
    password ← c_str_from 16 data_buf
    sql ← print_to 2048 (select_pass tel)
    (selected, list_str) ← sql_select sql 2 []
    if selected then check_password password list_str from else pure tt
