-- ===== src/Client/Order.antt =====
-- ckernel.cpp: each friend stands in the list once, and forms and chat windows stand under the ids
-- of their friends, whatever packets arrive and whatever slots run.
mod Spec
pub use Spec.{count, one_if, Ordered, aside-Ordered, dialog_put-Ordered}
use Spec.{form_put-Ordered, put_friend-Ordered}
use instance_message.Base.{
  ℕ, ◌+◌, ◌≡◌, refl, subst, Bool, true, false, ◌&&◌, Option, none, some, [], ◌∷◌, ◌++◌, Bytes,
  lookup, put, arith, ◌==◌, if◌then◌else◌, int_at, some-injective,
}
use instance_message.Text.{c_str_at}
use instance_message.Protocol.{def_status_offline}
use instance_message.Client.State.{
  QString, Codec, FriendForm, Line, ChatDialog, UserPanel, Client, ◌>>=◌,
}
use instance_message.Client.Keeps.{Keeps, step-Keeps, total-Keeps}
use instance_message.Client.Received.{
  Handler, put_friend, set_friend_info, deal_register_rs, deal_login_rs, deal_user_info,
  deal_offline_rq, deal_chat_rq, deal_chat_rs, deal_add_friend_rq, deal_add_friend_rs, call_handler,
  slot_transmit_data,
}

abbrev Orders : (Client → Option Client) → Type 0
Orders = Keeps Ordered

own_or_put-Ordered :
    (own : Bool) (name : QString) (panel : Option UserPanel) (form : FriendForm) (c : Client)
    → Ordered c
    → Ordered (if own then record c { user_name = name; panel = panel } else put_friend form c)
own_or_put-Ordered true name panel form c o =
    aside-Ordered c (record c { user_name = name; panel = panel }) o refl refl refl (o.one_window)
own_or_put-Ordered false name panel form c o = put_friend-Ordered form c o

deal_user_info-Orders : (codec : Codec) (buf : Bytes) → Orders (deal_user_info codec buf)
unfolding deal_user_info
deal_user_info-Orders codec buf = step-Keeps Ordered (c_str_at 16 buf) _ λ n.
    step-Keeps Ordered (c_str_at 36 buf) _ λ f. step-Keeps Ordered (int_at 4 buf) _ λ id.
      step-Keeps Ordered (int_at 8 buf) _ λ icon. step-Keeps Ordered (int_at 12 buf) _ λ status.
        let name = codec.to_unicode n in
        let feeling = codec.to_unicode f in
        total-Keeps Ordered
          (λ c.
            if id == c.user_id
            then record c {
              user_name = name;
              panel = some (record { name = name; feeling = feeling; icon_id = icon });
            }
            else put_friend (set_friend_info id name feeling icon status) c)
          λ c. own_or_put-Ordered (id == c.user_id) _ _ _ c

-- A handler that leaves the forms, the chat windows and the list alone.
abbrev Apart : (Client → Option Client) → Type 0
Apart f =
    (c c' : Client)
    → (c.login_visible && c.list_visible) ≡ false
    → f c ≡ some c'
    → (c'.forms ≡ c.forms)
      × (c'.dialogs ≡ c.dialogs)
      × (c'.layout ≡ c.layout)
      × ((c'.login_visible && c'.list_visible) ≡ false)

pub Apart-Orders : (f : Client → Option Client) → Apart f → Orders f
Apart-Orders f k c c' o e =
    let (forms, dialogs, layout, windows) = k c c' (o.one_window) e in
    aside-Ordered c c' o forms dialogs layout windows

deal_register_rs-Apart : (buf : Bytes) → Apart (deal_register_rs buf)
unfolding deal_register_rs
deal_register_rs-Apart buf c c' w e = ground arith

deal_login_rs-Apart : (buf : Bytes) → Apart (deal_login_rs buf)
unfolding deal_login_rs
deal_login_rs-Apart buf c c' w e = ground arith

deal_add_friend_rq-Apart : (answer : Bool) (buf : Bytes) → Apart (deal_add_friend_rq answer buf)
unfolding deal_add_friend_rq
deal_add_friend_rq-Apart answer buf c c' w e = ground arith

deal_add_friend_rs-Apart : (codec : Codec) (buf : Bytes) → Apart (deal_add_friend_rs codec buf)
unfolding deal_add_friend_rs
deal_add_friend_rs-Apart codec buf c c' w e = ground arith

-- What is done with an entry of a map, if there is one.
abbrev if_found : {A : Type 0} → Option A → (A → Client) → Client → Client
if_found m f c = elim m as (λ _. Client) [ none ↦ c | some a ↦ f a ]

found-Ordered :
    {A : Type 0} (m : Option A) (f : A → Client) (c : Client)
    → Ordered c
    → ((a : A) → m ≡ some a → Ordered (f a))
    → Ordered (if_found m f c)
found-Ordered none f c o k = o
found-Ordered (some a) f c o k = k a refl

-- The dialog of a friend with another line in it, shown.
abbrev with_line : ℕ → Client → Line → ChatDialog → Client
with_line k c line d = record c {
  dialogs = put k (record d { chat = d.chat ++ line ∷ []; visible = true }) c.dialogs;
}

with_line-Ordered :
    (k : ℕ) (c : Client) (line : Line)
    → Ordered c
    → (d : ChatDialog) → lookup k c.dialogs ≡ some d
    → Ordered (with_line k c line d)
with_line-Ordered k c line o d e =
    dialog_put-Ordered k (record d { chat = d.chat ++ line ∷ []; visible = true }) c
      (o.own_dialog k d e) o

abbrev set_offline : ℕ → Client → FriendForm → Client
set_offline k c form = record c {
  forms = put k (record form { status = def_status_offline }) c.forms;
}

deal_offline_rq-Orders : (buf : Bytes) → Orders (deal_offline_rq buf)
unfolding deal_offline_rq
deal_offline_rq-Orders buf = step-Keeps Ordered (int_at 4 buf) _ λ k.
    total-Keeps Ordered (λ c. if_found (lookup k c.forms) (set_offline k c) c)
      λ c o. found-Ordered (lookup k c.forms) (set_offline k c) c o λ form e.
        form_put-Ordered k form (record form { status = def_status_offline }) c e
          (o.own_form k form e) o

deal_chat_rs-Orders : (buf : Bytes) → Orders (deal_chat_rs buf)
unfolding deal_chat_rs
deal_chat_rs-Orders buf = step-Keeps Ordered (int_at 4 buf) _ λ k.
    total-Keeps Ordered (λ c. if_found (lookup k c.dialogs) (with_line k c Line.friend_offline) c)
      λ c o.
        found-Ordered (lookup k c.dialogs) (with_line k c Line.friend_offline) c o
          (with_line-Ordered k c Line.friend_offline o)

chat_line :
    (k : ℕ) (content : Option Bytes) (m : Option ChatDialog) (c c' : Client)
    → lookup k c.dialogs ≡ m
    → Ordered c
    → (elim m as (λ _. Option Client) [
      | some dialog ↦ content >>= λ t. some (with_line k c (Line.theirs t) dialog)
      | none ↦ some c
    ])
      ≡ some c'
    → Ordered c'
chat_line k content none c c' e o h = subst Ordered (some-injective c c' h) o
chat_line k none (some d) c c' e o h = ground arith
chat_line k (some t) (some d) c c' e o h =
    subst Ordered (some-injective _ c' h) (with_line-Ordered k c (Line.theirs t) o d e)

deal_chat_rq-Orders : (buf : Bytes) → Orders (deal_chat_rq buf)
unfolding deal_chat_rq
deal_chat_rq-Orders buf =
    step-Keeps Ordered (int_at 4 buf) _
      λ k c c' o h. chat_line k (c_str_at 12 buf) (lookup k c.dialogs) c c' refl o h

call_handler-Orders :
    (codec : Codec) (answer : Bool) (handler : Handler) (buf : Bytes)
    → Orders (call_handler codec answer handler buf)
unfolding call_handler
call_handler-Orders codec answer Handler.register_rs buf =
    Apart-Orders (deal_register_rs buf) (deal_register_rs-Apart buf)
call_handler-Orders codec answer Handler.login_rs buf =
    Apart-Orders (deal_login_rs buf) (deal_login_rs-Apart buf)
call_handler-Orders codec answer Handler.user_info buf = deal_user_info-Orders codec buf
call_handler-Orders codec answer Handler.offline_rq buf = deal_offline_rq-Orders buf
call_handler-Orders codec answer Handler.chat_rq buf = deal_chat_rq-Orders buf
call_handler-Orders codec answer Handler.chat_rs buf = deal_chat_rs-Orders buf
call_handler-Orders codec answer Handler.add_friend_rq buf =
    Apart-Orders (deal_add_friend_rq answer buf) (deal_add_friend_rq-Apart answer buf)
call_handler-Orders codec answer Handler.add_friend_rs buf =
    Apart-Orders (deal_add_friend_rs codec buf) (deal_add_friend_rs-Apart codec buf)

pub slot_transmit_data-Orders :
    (codec : Codec) (answer : Bool) (buf : Bytes) → Orders (slot_transmit_data codec answer buf)
unfolding slot_transmit_data
slot_transmit_data-Orders codec answer buf c c' o e =
    grind (arith, call_handler-Orders codec answer)
