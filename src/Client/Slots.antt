-- ===== src/Client/Slots.antt =====
-- IMClient/ckernel.cpp: the slots that the windows signal, and the forms of logindialog.cpp,
-- chatdialog.cpp and friendlist.cpp that check the input before they do.
use instance_message.Base.{
  ℕ, Bool, true, false, not, ◌||◌, Option, none, some, [], ◌∷◌, ◌++◌, Bytes, Map, lookup, put,
  length, leb, bytes_eq, ◌==◌, if◌then◌else◌,
}
use instance_message.Text.{strcpy_s}
use instance_message.Protocol.Messages.{
  new_register_rq, encode_register_rq, new_login_rq, encode_login_rq, new_offline_rq,
  encode_offline_rq, new_chat_rq, encode_chat_rq, new_add_friend_rq, encode_add_friend_rq,
}
use instance_message.Client.State.{
  QString, Codec, FriendForm, Line, Box, Client, with_box, with_sent, ◌>>=◌,
}

-- utf8ToGb2312
unfoldable pub utf8_to_gb2312 : Codec → QString → Bytes → Option Bytes
utf8_to_gb2312 codec src dst = strcpy_s dst (codec.from_unicode src)

-- 1) slot_registerMassage
unfoldable pub slot_register_massage : Codec → QString → QString → QString → Client → Option Client
unfolding utf8_to_gb2312
slot_register_massage codec name tel password c = do
  name_array ← utf8_to_gb2312 codec name new_register_rq.name
  tel_array ← strcpy_s new_register_rq.tel (codec.to_std_string tel)
  password_array ← strcpy_s new_register_rq.password (codec.to_std_string password)
  some (
      with_sent c (
        encode_register_rq (record new_register_rq {
          name = name_array;
          tel = tel_array;
          password = password_array;
        })))

-- 2) slot_loginMassage
unfoldable pub slot_login_massage : Codec → QString → QString → Client → Option Client
slot_login_massage codec tel password c = do
  tel_array ← strcpy_s new_login_rq.tel (codec.to_std_string tel)
  password_array ← strcpy_s new_login_rq.password (codec.to_std_string password)
  some (
      with_sent c
        (encode_login_rq (record new_login_rq { tel = tel_array; password = password_array })))

-- 3) slot_closeProcess: the network is closed, the windows are deleted, and the process ends.
unfoldable pub slot_close_process : Client → Client
slot_close_process c = record c { login_visible = false; list_visible = false; exited = true }

-- 4) slot_offlien
unfoldable pub slot_offlien : Client → Client
unfolding slot_close_process
slot_offlien c =
    slot_close_process
      (with_sent c (encode_offline_rq (record new_offline_rq { user_id = c.user_id })))

-- 5) slot_showChatDialog
unfoldable pub slot_show_chat_dialog : ℕ → Client → Client
slot_show_chat_dialog friend_id c = elim (lookup friend_id c.dialogs) [
  | some dialog ↦ record c { dialogs = put friend_id (record dialog { visible = true }) c.dialogs }
  | none ↦ c
]

-- 6) slot_sendMessage
unfoldable pub slot_send_message : Codec → ℕ → QString → Client → Option Client
slot_send_message codec friend_id content c = do
  content_array ← strcpy_s new_chat_rq.content (codec.to_std_string content)
  some (
      with_sent c (
        encode_chat_rq (record new_chat_rq {
          friend_id = friend_id;
          user_id = c.user_id;
          content = content_array;
        })))

-- QString::remove( " " ), and whether nothing is left.
abbrev pub remove_spaces : QString → QString
remove_spaces [] = []
remove_spaces (c ∷ s) = if c == b' ' then remove_spaces s else c ∷ remove_spaces s

abbrev pub is_empty : QString → Bool
is_empty [] = true
is_empty (c ∷ s) = false

-- Whether a friend in the list has the name.
unfoldable pub has_name : QString → Map FriendForm → Bool
has_name name [] = false
has_name name ((id, form) ∷ forms) = bytes_eq name form.name || has_name name forms

-- 7) slot_addFriend, with the name that the user enters.
unfoldable pub slot_add_friend : Codec → QString → Client → Option Client
unfolding has_name utf8_to_gb2312
slot_add_friend codec name c =
    if is_empty (remove_spaces name)
    then some (with_box c Box.name_empty)
    else (if bytes_eq name c.user_name
        then some (with_box c Box.own_name)
        else (if has_name name c.forms then some (with_box c Box.already_friend) else (do
          friend_name ← utf8_to_gb2312 codec name new_add_friend_rq.friend_name
          user_name ← strcpy_s new_add_friend_rq.user_name (codec.to_std_string c.user_name)
          some (
              with_sent c (
                encode_add_friend_rq (record new_add_friend_rq {
                  user_id = c.user_id;
                  friend_name = friend_name;
                  user_name = user_name;
                }))))))

-- What a form does with the input: a signal to the kernel, or a message box.
pub data Input : Type 0 where
  accepted blank bad_length : Input

-- LoginDialog::on_pb_commit_login_clicked
unfoldable pub check_login : QString → QString → Input
check_login tel password =
    if is_empty (remove_spaces tel) || is_empty (remove_spaces password)
    then Input.blank
    else (if not (length tel == 11) || leb 20 (length password)
        then Input.bad_length
        else Input.accepted)

-- LoginDialog::on_pb_commit_register_clicked
unfoldable pub check_register : QString → QString → QString → Input
check_register name tel password =
    if is_empty (remove_spaces name)
      || (is_empty (remove_spaces tel) || is_empty (remove_spaces password))
    then Input.blank
    else (if leb 20 (length name) || (not (length tel == 11) || leb 20 (length password))
        then Input.bad_length
        else Input.accepted)

unfoldable pub commit_login : Codec → QString → QString → Client → Option Client
unfolding check_login slot_login_massage
commit_login codec tel password c = elim (check_login tel password) [
  | Input.accepted ↦ slot_login_massage codec tel password c
  | _ ↦ some c
]

unfoldable pub commit_register : Codec → QString → QString → QString → Client → Option Client
unfolding check_register slot_register_massage
commit_register codec name tel password c = elim (check_register name tel password) [
  | Input.accepted ↦ slot_register_massage codec name tel password c
  | _ ↦ some c
]

-- ChatDialog::on_pb_send_clicked of the window of a friend: `plain` is the text of the editor and
-- `html` the same with its format.
unfoldable pub on_send_clicked : Codec → ℕ → QString → QString → Client → Option Client
unfolding slot_send_message
on_send_clicked codec friend_id plain html c =
    if is_empty (remove_spaces plain) then some c else (elim (lookup friend_id c.dialogs) [
      | none ↦ some c
      | some dialog ↦ slot_send_message codec dialog.id html (record c {
        dialogs =
            put friend_id (record dialog { chat = dialog.chat ++ Line.mine html ∷ [] }) c.dialogs;
      })
    ])

-- FriendList::closeEvent, with the user's answer.
unfoldable pub close_event : (yes_answer : Bool) → Client → Client
unfolding slot_offlien
close_event yes_answer c = if yes_answer then slot_offlien c else c
