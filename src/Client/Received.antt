-- ===== src/Client/Received.antt =====
-- IMClient/ckernel.cpp: the handlers of received packets, and their dispatch by type.
use instance_message.Base.{
  ℕ, ◌-◌, Bool, true, false, ◌&&◌, Option, none, some, List, [], ◌∷◌, ◌++◌, Bytes, lookup, put,
  int_at, set, get_elem?, replicate, sub32, non_negative, ltb, ◌==◌, if◌then◌else◌,
}
use instance_message.Text.{c_str_at, strcpy_s}
use instance_message.Protocol
use instance_message.Protocol.Messages.{new_add_friend_rs, encode_add_friend_rs}
use instance_message.Client.State.{
  QString, Codec, FriendForm, Line, ChatDialog, Box, Client, with_box, with_sent, ◌>>=◌,
}

-- 1) The result of a registration.
unfoldable pub deal_register_rs : Bytes → Client → Option Client
deal_register_rs buf c = do
  result ← int_at 4 buf
  some (
      if result == Protocol.def_rigister_success
      then with_box c Box.registered
      else (if result == Protocol.def_register_tel_exists
          then with_box c Box.tel_registered
          else (if result == Protocol.def_register_name_exists
              then with_box c Box.name_exists
              else c)))

-- 2) The result of a login.
unfoldable pub deal_login_rs : Bytes → Client → Option Client
deal_login_rs buf c = do
  id ← int_at 8 buf
  result ← int_at 4 buf
  some (
      if result == Protocol.def_login_tel_not_register
      then with_box c Box.tel_not_registered
      else (if result == Protocol.def_login_password_error
          then with_box c Box.password_wrong
          else (if result == Protocol.def_login_success
              then record c { user_id = id; login_visible = false; list_visible = true }
              else c)))

-- FriendForm::setFriendInfo and ChatDialog::setDialogInfo
abbrev pub set_friend_info : ℕ → QString → QString → ℕ → ℕ → FriendForm
set_friend_info id name feeling icon_id status = record {
  id = id;
  name = name;
  feeling = feeling;
  icon_id = icon_id;
  status = status;
}

abbrev pub set_dialog_info : ℕ → QString → ChatDialog
set_dialog_info friend_id name = record { id = friend_id; name = name; chat = []; visible = false }

-- The data of a user that is not the client's own: a known friend's form, or a new one with a chat
-- window.
unfoldable pub put_friend : FriendForm → Client → Client
put_friend form c = elim (lookup form.id c.forms) [
  | some old ↦ record c { forms = put form.id form c.forms }
  | none ↦ record c {
    layout = c.layout ++ form.id ∷ [];
    forms = put form.id form c.forms;
    dialogs = put form.id (set_dialog_info form.id form.name) c.dialogs;
  }
]

-- 3) The data of a user.
unfoldable pub deal_user_info : Codec → Bytes → Client → Option Client
unfolding put_friend
deal_user_info codec buf c = do
  name_bytes ← c_str_at 16 buf
  feeling_bytes ← c_str_at 36 buf
  id ← int_at 4 buf
  icon_id ← int_at 8 buf
  status ← int_at 12 buf
  let name = codec.to_unicode name_bytes
  let feeling = codec.to_unicode feeling_bytes
  some (
      if id == c.user_id
      then record c {
        user_name = name;
        panel = some (record { name = name; feeling = feeling; icon_id = icon_id });
      }
      else put_friend (set_friend_info id name feeling icon_id status) c)

-- 4) A friend goes offline: FriendForm::setFriendOffline.
unfoldable pub deal_offline_rq : Bytes → Client → Option Client
deal_offline_rq buf c = do
  user_id ← int_at 4 buf
  some (elim (lookup user_id c.forms) [
    | some form ↦ record c {
      forms = put user_id (record form { status = Protocol.def_status_offline }) c.forms;
    }
    | none ↦ c
  ])

-- 5) A message of a friend: ChatDialog::setChatContent.
unfoldable pub deal_chat_rq : Bytes → Client → Option Client
deal_chat_rq buf c = do
  user_id ← int_at 4 buf
  elim (lookup user_id c.dialogs) [
    | some dialog ↦ (do
      content ← c_str_at 12 buf
      some (record c {
        dialogs =
            put user_id
              (record dialog { chat = dialog.chat ++ Line.theirs content ∷ []; visible = true })
              c.dialogs;
      }))
    | none ↦ some c
  ]

-- 6) The friend was not online: ChatDialog::showFriendOffline.
unfoldable pub deal_chat_rs : Bytes → Client → Option Client
deal_chat_rs buf c = do
  friend_id ← int_at 4 buf
  some (elim (lookup friend_id c.dialogs) [
    | some dialog ↦ record c {
      dialogs =
          put friend_id
            (record dialog { chat = dialog.chat ++ Line.friend_offline ∷ []; visible = true })
            c.dialogs;
    }
    | none ↦ c
  ])

-- 7) A request for friendship, which the user answers with yes or no.
unfoldable pub deal_add_friend_rq : (yes_answer : Bool) → Bytes → Client → Option Client
deal_add_friend_rq yes_answer buf c = do
  friend_id ← int_at 4 buf
  friend_name ← c_str_at 28 buf
  copied ← strcpy_s new_add_friend_rs.friend_name friend_name
  let rs = record new_add_friend_rs {
    friend_id = friend_id;
    user_id = c.user_id;
    friend_name = copied;
    result = if yes_answer then Protocol.def_add_friend_success else Protocol.def_add_friend_refuse;
  }
  some (with_sent c (encode_add_friend_rs rs))

-- 8) The answer to the user's own request.
unfoldable pub deal_add_friend_rs : Codec → Bytes → Client → Option Client
deal_add_friend_rs codec buf c = do
  name_bytes ← c_str_at 16 buf
  result ← int_at 4 buf
  let name = codec.to_unicode name_bytes
  some (
      if result == Protocol.def_add_friend_success
      then with_box c (Box.friend_added name)
      else (if result == Protocol.def_add_friend_not_exists
          then with_box c (Box.friend_not_exists name)
          else (if result == Protocol.def_add_friend_offlien
              then with_box c (Box.friend_not_online name)
              else (if result == Protocol.def_add_friend_refuse
                  then with_box c (Box.friend_refused name)
                  else c))))

pub data Handler : Type 0 where
  register_rs login_rs user_info offline_rq chat_rq chat_rs add_friend_rq add_friend_rs : Handler

store_handler : ℕ → Handler → List (Option Handler) → List (Option Handler)
store_handler type h arr = set arr (type - Protocol.def_protocol_base - 1) (some h)

-- initFunArr
unfoldable pub init_fun_arr : List (Option Handler)
unfolding store_handler
init_fun_arr = store_handler Protocol.def_add_friend_rs Handler.add_friend_rs (
    store_handler Protocol.def_add_friend_rq Handler.add_friend_rq (
      store_handler Protocol.def_chat_rs Handler.chat_rs (
        store_handler Protocol.def_chat_rq Handler.chat_rq (
          store_handler Protocol.def_offline_rq Handler.offline_rq (
            store_handler Protocol.def_user_info Handler.user_info (
              store_handler Protocol.def_login_rs Handler.login_rs (
                store_handler Protocol.def_register_rs Handler.register_rs
                  (replicate Protocol.def_arrry_fun_length none))))))))

unfoldable pub call_handler : Codec → Bool → Handler → Bytes → Client → Option Client
call_handler codec yes_answer Handler.register_rs buf c = deal_register_rs buf c
call_handler codec yes_answer Handler.login_rs buf c = deal_login_rs buf c
call_handler codec yes_answer Handler.user_info buf c = deal_user_info codec buf c
call_handler codec yes_answer Handler.offline_rq buf c = deal_offline_rq buf c
call_handler codec yes_answer Handler.chat_rq buf c = deal_chat_rq buf c
call_handler codec yes_answer Handler.chat_rs buf c = deal_chat_rs buf c
call_handler codec yes_answer Handler.add_friend_rq buf c = deal_add_friend_rq yes_answer buf c
call_handler codec yes_answer Handler.add_friend_rs buf c = deal_add_friend_rs codec buf c

unfoldable pub index_of : ℕ → ℕ
index_of type = sub32 (sub32 type Protocol.def_protocol_base) 1

-- slot_transmitData, with the table as `initFunArr` leaves it; `yes_answer` is the user's answer if
-- the packet asks a question.
unfoldable pub slot_transmit_data : Codec → Bool → Bytes → Client → Option Client
unfolding call_handler index_of
slot_transmit_data codec yes_answer buf c = do
  type ← int_at 0 buf
  if non_negative (index_of type) && ltb (index_of type) Protocol.def_arrry_fun_length
      then (do
        entry ← get_elem? init_fun_arr (index_of type)
        elim entry [ some h ↦ call_handler codec yes_answer h buf c | none ↦ some c ])
      else some c
