-- ===== src/Protocol.antt =====
-- The packet types, result codes and array sizes of IMServer/config.h, which IMClient/Net/config.h
-- repeats.
pub mod Messages
pub mod Layout
use instance_message.Base.{ℕ, ◌+◌, ◌*◌}

abbrev pub def_tel_length : ℕ
def_tel_length = 12

abbrev pub def_password_max_length : ℕ
def_password_max_length = 20

abbrev pub def_name_max_length : ℕ
def_name_max_length = 20

abbrev pub def_feeling_max_length : ℕ
def_feeling_max_length = 100

abbrev pub def_content_max_length : ℕ
def_content_max_length = 8 * 1024

abbrev pub def_arrry_fun_length : ℕ
def_arrry_fun_length = 10

abbrev pub def_protocol_base : ℕ
def_protocol_base = 1000

abbrev pub def_register_rq : ℕ
def_register_rq = def_protocol_base + 1

abbrev pub def_register_rs : ℕ
def_register_rs = def_protocol_base + 2

abbrev pub def_login_rq : ℕ
def_login_rq = def_protocol_base + 3

abbrev pub def_login_rs : ℕ
def_login_rs = def_protocol_base + 4

abbrev pub def_add_friend_rq : ℕ
def_add_friend_rq = def_protocol_base + 5

abbrev pub def_add_friend_rs : ℕ
def_add_friend_rs = def_protocol_base + 6

abbrev pub def_user_info : ℕ
def_user_info = def_protocol_base + 7

abbrev pub def_chat_rq : ℕ
def_chat_rq = def_protocol_base + 8

abbrev pub def_chat_rs : ℕ
def_chat_rs = def_protocol_base + 9

abbrev pub def_offline_rq : ℕ
def_offline_rq = def_protocol_base + 10

abbrev pub def_rigister_success : ℕ
def_rigister_success = 0

abbrev pub def_register_tel_exists : ℕ
def_register_tel_exists = 1

abbrev pub def_register_name_exists : ℕ
def_register_name_exists = 2

abbrev pub def_login_success : ℕ
def_login_success = 0

abbrev pub def_login_tel_not_register : ℕ
def_login_tel_not_register = 1

abbrev pub def_login_password_error : ℕ
def_login_password_error = 3

abbrev pub def_add_friend_success : ℕ
def_add_friend_success = 0

abbrev pub def_add_friend_not_exists : ℕ
def_add_friend_not_exists = 1

abbrev pub def_add_friend_offlien : ℕ
def_add_friend_offlien = 2

abbrev pub def_add_friend_refuse : ℕ
def_add_friend_refuse = 3

abbrev pub def_status_online : ℕ
def_status_online = 0

abbrev pub def_status_offline : ℕ
def_status_offline = 1

abbrev pub def_send_success : ℕ
def_send_success = 0

abbrev pub def_send_error : ℕ
def_send_error = 1
