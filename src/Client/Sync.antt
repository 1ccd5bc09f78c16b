-- ===== src/Client/Sync.antt =====
-- ckernel.cpp: every friend in the list has a chat window, and the other way round, whatever packets
-- arrive.
use instance_message.Base.{
  ℕ, ◌≡◌, Bool, true, false, Option, none, some, Bytes, lookup, put, lookup-put, arith, ◌==◌,
  if◌then◌else◌, int_at,
}
use instance_message.Text.{c_str_at}
use instance_message.Client.State.{QString, Codec, FriendForm, ChatDialog, UserPanel, Client}
use instance_message.Client.Keeps.{Keeps, step-Keeps, total-Keeps}
use instance_message.Client.Received.{
  Handler, put_friend, set_friend_info, set_dialog_info, deal_register_rs, deal_login_rs,
  deal_user_info, deal_offline_rq, deal_chat_rq, deal_chat_rs, deal_add_friend_rq,
  deal_add_friend_rs, call_handler, slot_transmit_data,
}

abbrev pub present {ℓ} : {A : Type ℓ} → Option A → Bool
present none = false
present (some a) = true

-- The keys of the forms are those of the chat windows.
abbrev pub InSync : Client → Type 0
InSync c = (id : ℕ) → present (lookup id c.forms) ≡ present (lookup id c.dialogs)

abbrev Syncs : (Client → Option Client) → Type 0
Syncs = Keeps InSync

put_friend-InSync : (form : FriendForm) (c : Client) → InSync c → InSync (put_friend form c)
unfolding put_friend
put_friend-InSync form c h id = ground (
  arith,
  lookup-put form.id id form c.forms,
  lookup-put form.id id (set_dialog_info form.id form.name) c.dialogs,
  h id,
  h form.id,
)

-- A form or a chat window that is replaced by another under the same key.
form_put-InSync :
    (k : ℕ) (old new : FriendForm) (c : Client)
    → lookup k c.forms ≡ some old
    → InSync c
    → InSync (record c { forms = put k new c.forms })
form_put-InSync k old new c e h id = ground (arith, lookup-put k id new c.forms, h id, h k)

pub dialog_put-InSync :
    (k : ℕ) (old new : ChatDialog) (c : Client)
    → lookup k c.dialogs ≡ some old
    → InSync c
    → InSync (record c { dialogs = put k new c.dialogs })
dialog_put-InSync k old new c e h id = ground (arith, lookup-put k id new c.dialogs, h id, h k)

deal_register_rs-Syncs : (buf : Bytes) → Syncs (deal_register_rs buf)
unfolding deal_register_rs
deal_register_rs-Syncs buf c c' h e id = ground (arith, h id)

deal_login_rs-Syncs : (buf : Bytes) → Syncs (deal_login_rs buf)
unfolding deal_login_rs
deal_login_rs-Syncs buf c c' h e id = ground (arith, h id)

own_or_put-InSync :
    (own : Bool) (name : QString) (panel : Option UserPanel) (form : FriendForm) (c : Client)
    → InSync c
    → InSync (if own then record c { user_name = name; panel = panel } else put_friend form c)
own_or_put-InSync true name panel form c h = h
own_or_put-InSync false name panel form c h = put_friend-InSync form c h

deal_user_info-Syncs : (codec : Codec) (buf : Bytes) → Syncs (deal_user_info codec buf)
unfolding deal_user_info
deal_user_info-Syncs codec buf = step-Keeps InSync (c_str_at 16 buf) _ λ n.
    step-Keeps InSync (c_str_at 36 buf) _ λ f. step-Keeps InSync (int_at 4 buf) _ λ id.
      step-Keeps InSync (int_at 8 buf) _ λ icon. step-Keeps InSync (int_at 12 buf) _ λ status.
        let name = codec.to_unicode n in
        let feeling = codec.to_unicode f in
        total-Keeps InSync
          (λ c.
            if id == c.user_id
            then record c {
              user_name = name;
              panel = some (record { name = name; feeling = feeling; icon_id = icon });
            }
            else put_friend (set_friend_info id name feeling icon status) c)
          λ c. own_or_put-InSync (id == c.user_id) _ _ _ c

deal_offline_rq-Syncs : (buf : Bytes) → Syncs (deal_offline_rq buf)
unfolding deal_offline_rq
deal_offline_rq-Syncs buf c c' h e id = grind (arith, h id, form_put-InSync)

deal_chat_rq-Syncs : (buf : Bytes) → Syncs (deal_chat_rq buf)
unfolding deal_chat_rq
deal_chat_rq-Syncs buf c c' h e id = grind (arith, h id, dialog_put-InSync)

deal_chat_rs-Syncs : (buf : Bytes) → Syncs (deal_chat_rs buf)
unfolding deal_chat_rs
deal_chat_rs-Syncs buf c c' h e id = grind (arith, h id, dialog_put-InSync)

deal_add_friend_rq-Syncs : (answer : Bool) (buf : Bytes) → Syncs (deal_add_friend_rq answer buf)
unfolding deal_add_friend_rq
deal_add_friend_rq-Syncs answer buf c c' h e id = ground (arith, h id)

deal_add_friend_rs-Syncs : (codec : Codec) (buf : Bytes) → Syncs (deal_add_friend_rs codec buf)
unfolding deal_add_friend_rs
deal_add_friend_rs-Syncs codec buf c c' h e id = ground (arith, h id)

call_handler-Syncs :
    (codec : Codec) (answer : Bool) (handler : Handler) (buf : Bytes)
    → Syncs (call_handler codec answer handler buf)
unfolding call_handler
call_handler-Syncs codec answer Handler.register_rs buf = deal_register_rs-Syncs buf
call_handler-Syncs codec answer Handler.login_rs buf = deal_login_rs-Syncs buf
call_handler-Syncs codec answer Handler.user_info buf = deal_user_info-Syncs codec buf
call_handler-Syncs codec answer Handler.offline_rq buf = deal_offline_rq-Syncs buf
call_handler-Syncs codec answer Handler.chat_rq buf = deal_chat_rq-Syncs buf
call_handler-Syncs codec answer Handler.chat_rs buf = deal_chat_rs-Syncs buf
call_handler-Syncs codec answer Handler.add_friend_rq buf = deal_add_friend_rq-Syncs answer buf
call_handler-Syncs codec answer Handler.add_friend_rs buf = deal_add_friend_rs-Syncs codec buf

-- Whatever packet is handled, and whatever the user answers, if the friends with a form in the list
-- were exactly those with a chat window, they still are.
pub transmit_data-InSync :
    (codec : Codec) (answer : Bool) (buf : Bytes) (c c' : Client)
    → InSync c
    → slot_transmit_data codec answer buf c ≡ some c'
    → InSync c'
unfolding slot_transmit_data
transmit_data-InSync codec answer buf c c' h e id =
    grind (arith, h id, call_handler-Syncs codec answer)
