-- ===== src/Client/Silence.antt =====
-- What the client of IMClient/ckernel.cpp sends when it receives.
use instance_message.Base.{
  ℕ, ◌<◌, ◌≡◌, refl, ap, ◌∙◌, sym, ◌⊎◌, Option-cases, inl, inr, Bool, Option, none, some, Bytes,
  int_at, arith, two32, if◌then◌else◌,
}
use instance_message.Text.{c_str_at, strcpy_s}
use instance_message.Protocol.{def_add_friend_rq, def_add_friend_success, def_add_friend_refuse}
use instance_message.Protocol.Messages.{AddFriendRs, new_add_friend_rs, encode_add_friend_rs}
use instance_message.Client.Dispatching.{handler_for, handled_by, transmit_by_type}
use instance_message.Client.State.{with_sent, Codec, FriendForm, Client}
use instance_message.Client.Received.{
  deal_register_rs, deal_login_rs, put_friend, deal_user_info, deal_offline_rq, deal_chat_rq,
  deal_chat_rs, deal_add_friend_rq, deal_add_friend_rs, Handler, call_handler, slot_transmit_data,
}

register_rs-silent :
    (buf : Bytes) (c c' : Client) → deal_register_rs buf c ≡ some c' → c'.sent ≡ c.sent
unfolding deal_register_rs
register_rs-silent buf c c' h = ground arith

login_rs-silent : (buf : Bytes) (c c' : Client) → deal_login_rs buf c ≡ some c' → c'.sent ≡ c.sent
unfolding deal_login_rs
login_rs-silent buf c c' h = ground arith

put_friend-silent : (form : FriendForm) (c : Client) → (put_friend form c).sent ≡ c.sent
unfolding put_friend
put_friend-silent form c = ground arith

user_info-silent :
    (codec : Codec) (buf : Bytes) (c c' : Client)
    → deal_user_info codec buf c ≡ some c'
    → c'.sent ≡ c.sent
unfolding deal_user_info
user_info-silent codec buf c c' h = grind (arith, put_friend-silent)

offline_rq-silent :
    (buf : Bytes) (c c' : Client) → deal_offline_rq buf c ≡ some c' → c'.sent ≡ c.sent
unfolding deal_offline_rq
offline_rq-silent buf c c' h = ground arith

chat_rq-silent : (buf : Bytes) (c c' : Client) → deal_chat_rq buf c ≡ some c' → c'.sent ≡ c.sent
unfolding deal_chat_rq
chat_rq-silent buf c c' h = ground arith

chat_rs-silent : (buf : Bytes) (c c' : Client) → deal_chat_rs buf c ≡ some c' → c'.sent ≡ c.sent
unfolding deal_chat_rs
chat_rs-silent buf c c' h = ground arith

add_friend_rs-silent :
    (codec : Codec) (buf : Bytes) (c c' : Client)
    → deal_add_friend_rs codec buf c ≡ some c'
    → c'.sent ≡ c.sent
unfolding deal_add_friend_rs
add_friend_rs-silent codec buf c c' h = ground arith

-- The answer to a request for friendship: to the user that asked, from the user of the client, with
-- what the user chose.
pub record Answer (answer : Bool) (buf : Bytes) (c c' : Client) : Type 0 where
  pub rs : AddFriendRs
  pub to : int_at 4 buf ≡ some rs.friend_id
  pub from : rs.user_id ≡ c.user_id
  pub chosen : rs.result ≡ (if answer then def_add_friend_success else def_add_friend_refuse)
  pub sent : c' ≡ with_sent c (encode_add_friend_rs rs)

add_friend_rq-answers :
    (answer : Bool) (buf : Bytes) (c c' : Client)
    → deal_add_friend_rq answer buf c ≡ some c'
    → Answer answer buf c c'
unfolding deal_add_friend_rq
add_friend_rq-answers answer buf c c' h = elim (Option-cases (int_at 4 buf)) [
  | inl e ↦ absurd (ground arith)
  | inr (friend, e) ↦ elim (Option-cases (c_str_at 28 buf)) [
    | inl f ↦ absurd (ground arith)
    | inr (name, f) ↦ elim (Option-cases (strcpy_s new_add_friend_rs.friend_name name)) [
      | inl g ↦ absurd (ground arith)
      | inr (copied, g) ↦ record {
        rs = record new_add_friend_rs {
          friend_id = friend;
          user_id = c.user_id;
          friend_name = copied;
          result = if answer then def_add_friend_success else def_add_friend_refuse;
        };
        to = e;
        from = refl;
        chosen = refl;
        sent = ground arith;
      }
    ]
  ]
]

abbrev Spoken : Codec → Bool → Handler → Bytes → Client → Client → Type 0
Spoken codec answer h buf c c' =
    (c'.sent ≡ c.sent) ⊎ ((h ≡ Handler.add_friend_rq) × Answer answer buf c c')

handler-Spoken :
    (codec : Codec) (answer : Bool) (h : Handler) (buf : Bytes) (c c' : Client)
    → call_handler codec answer h buf c ≡ some c'
    → Spoken codec answer h buf c c'
unfolding call_handler
handler-Spoken codec answer Handler.register_rs buf c c' e = inl (register_rs-silent buf c c' e)
handler-Spoken codec answer Handler.login_rs buf c c' e = inl (login_rs-silent buf c c' e)
handler-Spoken codec answer Handler.user_info buf c c' e = inl (user_info-silent codec buf c c' e)
handler-Spoken codec answer Handler.offline_rq buf c c' e = inl (offline_rq-silent buf c c' e)
handler-Spoken codec answer Handler.chat_rq buf c c' e = inl (chat_rq-silent buf c c' e)
handler-Spoken codec answer Handler.chat_rs buf c c' e = inl (chat_rs-silent buf c c' e)
handler-Spoken codec answer Handler.add_friend_rq buf c c' e =
    inr (refl, add_friend_rq-answers answer buf c c' e)
handler-Spoken codec answer Handler.add_friend_rs buf c c' e =
    inl (add_friend_rs-silent codec buf c c' e)

asks_friendship :
    (type : ℕ) → handler_for type ≡ some Handler.add_friend_rq → type ≡ def_add_friend_rq
asks_friendship type e = ground arith

-- What the client sends by itself: whatever packet it handles, either it sends nothing, or the
-- packet is a request for friendship and the client does nothing but send one answer, to the user
-- that asked and with what its own user chose.
pub sends_only_answers :
    (codec : Codec) (answer : Bool) (buf : Bytes) (type : ℕ) (c c' : Client)
    → int_at 0 buf ≡ some type
    → type < two32
    → slot_transmit_data codec answer buf c ≡ some c'
    → (c'.sent ≡ c.sent) ⊎ ((type ≡ def_add_friend_rq) × Answer answer buf c c')
sends_only_answers codec answer buf type c c' t small e =
    at (handler_for type) refl (sym (transmit_by_type codec answer buf type c t small) ∙ e)
  where
    at :
        (o : Option Handler)
        → handler_for type ≡ o
        → handled_by codec answer o buf c ≡ some c'
        → (c'.sent ≡ c.sent) ⊎ ((type ≡ def_add_friend_rq) × Answer answer buf c c')
    at none o e = inl (ground arith)
    at (some h) o e = elim (handler-Spoken codec answer h buf c c' e) [
      | inl silent ↦ inl silent
      | inr (asked, sent) ↦ inr (asks_friendship type (o ∙ ap some asked), sent)
    ]
