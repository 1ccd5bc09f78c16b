-- ===== src/Server/Rules/Handlers.antt =====
-- The rules for the handlers of CKernel.cpp, and for the parts of dealLoginRq and dealOfflineRq
-- that leave the map of online users alone.
use instance_message.Base.{ℕ, arith, [], ◌∷◌, List, Bytes, int_at}
use instance_message.Text.{c_str_at, sprintf_s, format_only}
use instance_message.Text.Decimal.{stoi}
use instance_message.Server.Chatting.{not_online}
use instance_message.Server.World.{MySqlDriver}
use instance_message.Server.Sql.{select_name, insert_user, insert_friend}
use instance_message.Server.Kernel.Account.{
  reply_register, register_new_tel, deal_register_rq, reply_login,
}
use instance_message.Server.Kernel.Chat.{forward_to_friends, deal_chat_rq}
use instance_message.Server.Kernel.Friends.{
  reply_add_friend, reply_offline, deal_add_friend_rq, store_friendship, deal_add_friend_rs,
}
use instance_message.Server.Rules.{
  Rules, Obeys, Obeys-bind, Obeys-pure, Obeys-socket_of, Obeys-select, Obeys-update,
  Obeys-send_data, Obeys-if, Obeys-option, Obeys-list, Obeys-or_stop, Obeys-send_if_online,
  Obeys-get_user_info_and_friend_info,
}

module _ {d : MySqlDriver} {r : Rules d} where
  Obeys-reply_register : (result from : ℕ) → Obeys r (reply_register result from)
  unfolding reply_register
  Obeys-reply_register result from = Obeys-send_data _ 8 from (r.small 8 (omega arith))

  Obeys-register_new_tel : (buf tel : Bytes) (from : ℕ) → Obeys r (register_new_tel buf tel from)
  unfolding register_new_tel
  Obeys-register_new_tel buf tel from = Obeys-bind _ _ (Obeys-or_stop _ (c_str_at 36 buf)) λ name.
      Obeys-bind _ _ (Obeys-or_stop _ (sprintf_s 2064 (select_name name))) λ sql.
        Obeys-bind _ _ (Obeys-select sql 1 []) λ answer.
          Obeys-if answer.0 _ _
            (Obeys-list answer.1 _ _
              (Obeys-bind _ _ (Obeys-or_stop _ (c_str_at 16 buf)) λ password.
                Obeys-bind _ _ (Obeys-or_stop _ (sprintf_s 2064 (insert_user name tel password)))
                  λ insert.
                    Obeys-bind _ _ (Obeys-update _)
                      λ updated. Obeys-if updated _ _ (Obeys-reply_register _ from) (Obeys-pure tt))
              λ a rest. Obeys-reply_register _ from)
            (Obeys-pure tt)

  pub Obeys-deal_register_rq :
      (buf : Bytes) (len from : ℕ) → Obeys r (deal_register_rq buf len from)
  unfolding deal_register_rq
  Obeys-deal_register_rq buf len from = Obeys-bind _ _ (Obeys-or_stop _ (c_str_at 4 buf)) λ tel.
      Obeys-bind _ _ (Obeys-or_stop _ _) λ sql. Obeys-bind _ _ (Obeys-select sql 1 []) λ answer.
        Obeys-if answer.0 _ _
          (Obeys-list answer.1 _ _ (Obeys-register_new_tel buf tel from)
            λ a rest. Obeys-reply_register _ from)
          (Obeys-pure tt)

  pub Obeys-reply_login : (result id from : ℕ) → Obeys r (reply_login result id from)
  unfolding reply_login
  Obeys-reply_login result id from = Obeys-send_data _ 12 from (r.small 12 (omega arith))

  pub Obeys-forward_to_friends :
      (buf : Bytes) (len : ℕ) (l : List Bytes)
      → r.Small len
      → Obeys r (forward_to_friends buf len l)
  unfolding forward_to_friends
  Obeys-forward_to_friends buf len [] small = Obeys-pure tt
  Obeys-forward_to_friends buf len (s ∷ rest) small =
      Obeys-bind _ _ (Obeys-or_stop _ (stoi s)) λ friend.
        Obeys-bind _ _ (Obeys-send_if_online friend buf len small)
          λ _. Obeys-forward_to_friends buf len rest small

  pub Obeys-deal_chat_rq :
      (buf : Bytes) (len from : ℕ) → r.Small len → Obeys r (deal_chat_rq buf len from)
  unfolding deal_chat_rq
  Obeys-deal_chat_rq buf len from small = Obeys-bind _ _ (Obeys-or_stop _ (int_at 8 buf)) λ friend.
      Obeys-bind _ _ (Obeys-socket_of friend) λ o.
        Obeys-option o _ _ (Obeys-send_data (not_online friend) 12 from (r.small 12 (omega arith)))
          λ s. Obeys-send_data buf len s small

  Obeys-reply_add_friend :
      (result : ℕ) (name : Bytes) (from : ℕ) → Obeys r (reply_add_friend result name from)
  unfolding reply_add_friend
  Obeys-reply_add_friend result name from =
      Obeys-bind _ _ (Obeys-or_stop _ _)
        λ copied. Obeys-send_data _ 36 from (r.small 36 (omega arith))

  Obeys-reply_offline : (name : Bytes) (from : ℕ) → Obeys r (reply_offline name from)
  unfolding reply_offline
  Obeys-reply_offline name from =
      Obeys-bind _ _ (Obeys-or_stop _ (format_only name))
        λ printed. Obeys-reply_add_friend _ printed from

  pub Obeys-deal_add_friend_rq :
      (buf : Bytes) (len from : ℕ) → r.Small len → Obeys r (deal_add_friend_rq buf len from)
  unfolding deal_add_friend_rq
  Obeys-deal_add_friend_rq buf len from small =
      Obeys-bind _ _ (Obeys-or_stop _ (c_str_at 28 buf)) λ name.
        Obeys-bind _ _ (Obeys-or_stop _ _) λ sql. Obeys-bind _ _ (Obeys-select sql 1 []) λ answer.
          Obeys-if answer.0 _ _
            (Obeys-list answer.1 _ _ (Obeys-reply_add_friend _ name from) λ id_text rest.
              Obeys-bind _ _ (Obeys-or_stop _ (stoi id_text)) λ friend.
                Obeys-bind _ _ (Obeys-socket_of friend) λ o.
                  Obeys-option o _ _ (Obeys-reply_offline name from)
                    λ s. Obeys-send_data buf len s small)
            (Obeys-pure tt)

  Obeys-store_friendship : (a b : ℕ) → Obeys r (store_friendship a b)
  unfolding store_friendship
  Obeys-store_friendship a b =
      Obeys-bind _ _ (Obeys-or_stop _ (sprintf_s 2048 (insert_friend a b))) λ sql.
        Obeys-bind _ _ (Obeys-update _) λ updated.
          Obeys-if updated _ _
            (Obeys-bind _ _ (Obeys-or_stop _ (sprintf_s 2048 (insert_friend b a)))
              λ back. Obeys-update _)
            (Obeys-pure _)

  pub Obeys-deal_add_friend_rs :
      (buf : Bytes) (len from : ℕ) → r.Small len → Obeys r (deal_add_friend_rs buf len from)
  unfolding deal_add_friend_rs
  Obeys-deal_add_friend_rs buf len from small =
      Obeys-bind _ _ (Obeys-or_stop _ (int_at 4 buf)) λ result.
        Obeys-if _ _ _
          (Obeys-bind _ _ (Obeys-or_stop _ (int_at 8 buf)) λ friend.
            Obeys-bind _ _ (Obeys-or_stop _ (int_at 12 buf)) λ user.
              Obeys-bind _ _ (Obeys-store_friendship friend user) λ stored.
                Obeys-if stored _ _
                  (Obeys-bind _ _ (Obeys-get_user_info_and_friend_info friend)
                    λ _. Obeys-send_if_online friend buf len small)
                  (Obeys-pure tt))
          (Obeys-bind _ _ (Obeys-or_stop _ (int_at 8 buf))
            λ friend. Obeys-send_if_online friend buf len small)
