-- ===== src/Protocol/Messages.antt =====
-- The packet structs of IMServer/config.h (the same in IMClient/Net/config.h): their constructors,
-- and the bytes that `(char*)&packet` with `sizeof(packet)` names. An `int` field is its bit pattern
-- and a `char` array its bytes; no struct has padding.
use instance_message.Base.{ℕ, ◌++◌, Bytes, replicate, int_bytes}
use instance_message.Protocol.{
  def_add_friend_refuse, def_add_friend_rq, def_add_friend_rs, def_chat_rq, def_chat_rs,
  def_content_max_length, def_feeling_max_length, def_login_password_error, def_login_rq,
  def_login_rs, def_name_max_length, def_offline_rq, def_password_max_length,
  def_register_name_exists, def_register_rq, def_register_rs, def_send_error, def_status_offline,
  def_tel_length, def_user_info,
}

pub record RegisterRq : Type 0 where
  pub type : ℕ
  pub tel : Bytes
  pub password : Bytes
  pub name : Bytes

abbrev pub new_register_rq : RegisterRq
new_register_rq = record {
  type = def_register_rq;
  tel = replicate def_tel_length 0;
  password = replicate def_password_max_length 0;
  name = replicate def_name_max_length 0;
}

unfoldable pub encode_register_rq : RegisterRq → Bytes
encode_register_rq m = int_bytes m.type ++ (m.tel ++ (m.password ++ m.name))

pub record RegisterRs : Type 0 where
  pub type : ℕ
  pub result : ℕ

abbrev pub new_register_rs : RegisterRs
new_register_rs = record { type = def_register_rs; result = def_register_name_exists }

unfoldable pub encode_register_rs : RegisterRs → Bytes
encode_register_rs m = int_bytes m.type ++ int_bytes m.result

pub record LoginRq : Type 0 where
  pub type : ℕ
  pub tel : Bytes
  pub password : Bytes

abbrev pub new_login_rq : LoginRq
new_login_rq = record {
  type = def_login_rq;
  tel = replicate def_tel_length 0;
  password = replicate def_password_max_length 0;
}

unfoldable pub encode_login_rq : LoginRq → Bytes
encode_login_rq m = int_bytes m.type ++ (m.tel ++ m.password)

pub record LoginRs : Type 0 where
  pub type : ℕ
  pub result : ℕ
  pub id : ℕ

abbrev pub new_login_rs : LoginRs
new_login_rs = record { type = def_login_rs; result = def_login_password_error; id = 0 }

unfoldable pub encode_login_rs : LoginRs → Bytes
encode_login_rs m = int_bytes m.type ++ (int_bytes m.result ++ int_bytes m.id)

pub record AddFriendRq : Type 0 where
  pub type : ℕ
  pub user_id : ℕ
  pub user_name : Bytes
  pub friend_name : Bytes

abbrev pub new_add_friend_rq : AddFriendRq
new_add_friend_rq = record {
  type = def_add_friend_rq;
  user_id = 0;
  user_name = replicate def_name_max_length 0;
  friend_name = replicate def_name_max_length 0;
}

unfoldable pub encode_add_friend_rq : AddFriendRq → Bytes
encode_add_friend_rq m = int_bytes m.type ++ (int_bytes m.user_id ++ (m.user_name ++ m.friend_name))

pub record AddFriendRs : Type 0 where
  pub type : ℕ
  pub result : ℕ
  pub friend_id : ℕ
  pub user_id : ℕ
  pub friend_name : Bytes

abbrev pub new_add_friend_rs : AddFriendRs
new_add_friend_rs = record {
  type = def_add_friend_rs;
  result = def_add_friend_refuse;
  friend_id = 0;
  user_id = 0;
  friend_name = replicate def_name_max_length 0;
}

unfoldable pub encode_add_friend_rs : AddFriendRs → Bytes
encode_add_friend_rs m =
    int_bytes m.type
    ++ (int_bytes m.result ++ (int_bytes m.friend_id ++ (int_bytes m.user_id ++ m.friend_name)))

pub record UserInfo : Type 0 where
  pub type : ℕ
  pub id : ℕ
  pub icon_id : ℕ
  pub status : ℕ
  pub name : Bytes
  pub feeling : Bytes

abbrev pub new_user_info : UserInfo
new_user_info = record {
  type = def_user_info;
  id = 0;
  icon_id = 0;
  status = def_status_offline;
  name = replicate def_name_max_length 0;
  feeling = replicate def_feeling_max_length 0;
}

unfoldable pub encode_user_info : UserInfo → Bytes
encode_user_info m =
    int_bytes m.type
    ++ (int_bytes m.id ++ (int_bytes m.icon_id ++ (int_bytes m.status ++ (m.name ++ m.feeling))))

pub record ChatRq : Type 0 where
  pub type : ℕ
  pub user_id : ℕ
  pub friend_id : ℕ
  pub content : Bytes

abbrev pub new_chat_rq : ChatRq
new_chat_rq = record {
  type = def_chat_rq;
  user_id = 0;
  friend_id = 0;
  content = replicate def_content_max_length 0;
}

unfoldable pub encode_chat_rq : ChatRq → Bytes
encode_chat_rq m = int_bytes m.type ++ (int_bytes m.user_id ++ (int_bytes m.friend_id ++ m.content))

pub record ChatRs : Type 0 where
  pub type : ℕ
  pub friend_id : ℕ
  pub result : ℕ

abbrev pub new_chat_rs : ChatRs
new_chat_rs = record { type = def_chat_rs; friend_id = 0; result = def_send_error }

unfoldable pub encode_chat_rs : ChatRs → Bytes
encode_chat_rs m = int_bytes m.type ++ (int_bytes m.friend_id ++ int_bytes m.result)

pub record OfflineRq : Type 0 where
  pub type : ℕ
  pub user_id : ℕ

abbrev pub new_offline_rq : OfflineRq
new_offline_rq = record { type = def_offline_rq; user_id = 0 }

unfoldable pub encode_offline_rq : OfflineRq → Bytes
encode_offline_rq m = int_bytes m.type ++ int_bytes m.user_id
