-- ===== src/Protocol/Layout.antt =====
-- Where the receivers find the fields of a packet: they read an `int` or a C string at a fixed
-- offset of the received bytes.
use instance_message.Base.{
  ◌<◌, ◌≡◌, refl, some, ◌++◌, arith, two32, drop, drop-length, drop-length-2, length, int_bytes,
  int_at,
}
use instance_message.Protocol.{def_tel_length, def_password_max_length, def_name_max_length}
use instance_message.Protocol.Messages.{
  RegisterRq, LoginRq, LoginRs, AddFriendRq, AddFriendRs, UserInfo, ChatRq, ChatRs, OfflineRq,
  encode_register_rq, encode_login_rq, encode_login_rs, encode_add_friend_rq, encode_add_friend_rs,
  encode_user_info, encode_chat_rq, encode_chat_rs, encode_offline_rq,
}

pub chat_rq_layout :
    (m : ChatRq)
    → m.type < two32
    → m.user_id < two32
    → m.friend_id < two32
    → (int_at 0 (encode_chat_rq m) ≡ some m.type)
      × (int_at 4 (encode_chat_rq m) ≡ some m.user_id)
      × (int_at 8 (encode_chat_rq m) ≡ some m.friend_id)
      × (drop 12 (encode_chat_rq m) ≡ m.content)
unfolding encode_chat_rq int_at int_bytes
chat_rq_layout m t u f = (ground arith, ground arith, ground arith, refl)

pub login_rq_layout :
    (m : LoginRq)
    → m.type < two32
    → length m.tel ≡ def_tel_length
    → (int_at 0 (encode_login_rq m) ≡ some m.type)
      × (drop 4 (encode_login_rq m) ≡ m.tel ++ m.password)
      × (drop 16 (encode_login_rq m) ≡ m.password)
unfolding encode_login_rq int_at int_bytes
login_rq_layout m t h = (ground arith, refl, drop-length 12 m.tel m.password h)

pub register_rq_layout :
    (m : RegisterRq)
    → m.type < two32
    → length m.tel ≡ def_tel_length
    → length m.password ≡ def_password_max_length
    → (int_at 0 (encode_register_rq m) ≡ some m.type)
      × (drop 4 (encode_register_rq m) ≡ m.tel ++ (m.password ++ m.name))
      × (drop 16 (encode_register_rq m) ≡ m.password ++ m.name)
      × (drop 36 (encode_register_rq m) ≡ m.name)
unfolding encode_register_rq int_at int_bytes
register_rq_layout m t h k = (
  ground arith,
  refl,
  drop-length 12 m.tel (m.password ++ m.name) h,
  drop-length-2 12 20 m.tel m.password m.name h k,
)

pub add_friend_rs_layout :
    (m : AddFriendRs)
    → m.type < two32
    → m.result < two32
    → m.friend_id < two32
    → m.user_id < two32
    → (int_at 0 (encode_add_friend_rs m) ≡ some m.type)
      × (int_at 4 (encode_add_friend_rs m) ≡ some m.result)
      × (int_at 8 (encode_add_friend_rs m) ≡ some m.friend_id)
      × (int_at 12 (encode_add_friend_rs m) ≡ some m.user_id)
      × (drop 16 (encode_add_friend_rs m) ≡ m.friend_name)
unfolding encode_add_friend_rs int_at int_bytes
add_friend_rs_layout m t r f u = (ground arith, ground arith, ground arith, ground arith, refl)

pub add_friend_rq_layout :
    (m : AddFriendRq)
    → m.type < two32
    → m.user_id < two32
    → length m.user_name ≡ def_name_max_length
    → (int_at 0 (encode_add_friend_rq m) ≡ some m.type)
      × (int_at 4 (encode_add_friend_rq m) ≡ some m.user_id)
      × (drop 8 (encode_add_friend_rq m) ≡ m.user_name ++ m.friend_name)
      × (drop 28 (encode_add_friend_rq m) ≡ m.friend_name)
unfolding encode_add_friend_rq int_at int_bytes
add_friend_rq_layout m t u h =
    (ground arith, ground arith, refl, drop-length 20 m.user_name m.friend_name h)

pub user_info_layout :
    (m : UserInfo)
    → m.type < two32
    → m.id < two32
    → m.icon_id < two32
    → m.status < two32
    → length m.name ≡ def_name_max_length
    → (int_at 0 (encode_user_info m) ≡ some m.type)
      × (int_at 4 (encode_user_info m) ≡ some m.id)
      × (int_at 8 (encode_user_info m) ≡ some m.icon_id)
      × (int_at 12 (encode_user_info m) ≡ some m.status)
      × (drop 16 (encode_user_info m) ≡ m.name ++ m.feeling)
      × (drop 36 (encode_user_info m) ≡ m.feeling)
unfolding encode_user_info int_at int_bytes
user_info_layout m t i c s h = (
  ground arith,
  ground arith,
  ground arith,
  ground arith,
  refl,
  drop-length 20 m.name m.feeling h,
)

pub offline_rq_layout :
    (m : OfflineRq)
    → m.type < two32
    → m.user_id < two32
    → (int_at 0 (encode_offline_rq m) ≡ some m.type)
      × (int_at 4 (encode_offline_rq m) ≡ some m.user_id)
unfolding encode_offline_rq int_at int_bytes
offline_rq_layout m t u = (ground arith, ground arith)

pub login_rs_layout :
    (m : LoginRs)
    → m.type < two32
    → m.result < two32
    → m.id < two32
    → (int_at 0 (encode_login_rs m) ≡ some m.type)
      × (int_at 4 (encode_login_rs m) ≡ some m.result)
      × (int_at 8 (encode_login_rs m) ≡ some m.id)
unfolding encode_login_rs int_at int_bytes
login_rs_layout m t r i = (ground arith, ground arith, ground arith)

pub chat_rs_layout :
    (m : ChatRs)
    → m.type < two32
    → m.friend_id < two32
    → m.result < two32
    → (int_at 0 (encode_chat_rs m) ≡ some m.type)
      × (int_at 4 (encode_chat_rs m) ≡ some m.friend_id)
      × (int_at 8 (encode_chat_rs m) ≡ some m.result)
unfolding encode_chat_rs int_at int_bytes
chat_rs_layout m t r i = (ground arith, ground arith, ground arith)
