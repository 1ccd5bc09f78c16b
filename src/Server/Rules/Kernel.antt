-- ===== src/Server/Rules/Kernel.antt =====
-- The rules for every packet that dealData of CKernel.cpp is handed, given one for each of the three
-- accesses to the members of the kernel.
use instance_message.Base.{ℕ, [], ◌∷◌, List, Bytes, int_at, bytes_eq, ◌≢◌, refl}
use instance_message.Text.{c_str_at, sprintf_s}
use instance_message.Text.Decimal.{stoi}
use instance_message.Protocol.{def_login_success}
use instance_message.Server.World.{MySqlDriver, Handler, out_of_bounds}
use instance_message.Server.Sql.{select_pass, select_friends_offline}
use instance_message.Server.Kernel.Account.{set_online, log_in, check_password, deal_login_rq}
use instance_message.Server.Kernel.Chat.{remove_online, deal_offline_rq}
use instance_message.Server.Kernel.Dispatch.{fun_at, call_handler, index_of, deal_data}
use instance_message.Server.Rules.{
  Rules, Obeys, Obeys-bind, Obeys-pure, Obeys-stop, Obeys-select, Obeys-if, Obeys-option,
  Obeys-or_stop, Obeys-get_user_info_and_friend_info,
}
use instance_message.Server.Rules.Handlers.{
  Obeys-deal_register_rq, Obeys-reply_login, Obeys-forward_to_friends, Obeys-deal_chat_rq,
  Obeys-deal_add_friend_rq, Obeys-deal_add_friend_rs,
}

module _ {d : MySqlDriver} {r : Rules d} where
  module _ (enters : (id from : ℕ) → Obeys r (set_online id from)) where
    Obeys-log_in : (id from : ℕ) → Obeys r (log_in id from)
    unfolding log_in
    Obeys-log_in id from =
        Obeys-bind _ _ (Obeys-reply_login def_login_success id from)
          λ _. Obeys-bind _ _ (enters id from) λ _. Obeys-get_user_info_and_friend_info id

    Obeys-check_password :
        (password : Bytes) (l : List Bytes) (from : ℕ) → Obeys r (check_password password l from)
    unfolding check_password
    Obeys-check_password password [] from = Obeys-reply_login _ 0 from
    Obeys-check_password password (a ∷ []) from = Obeys-stop out_of_bounds
    Obeys-check_password password (a ∷ id_text ∷ rest) from =
        Obeys-bind _ _ (Obeys-or_stop _ (stoi id_text)) λ id.
          Obeys-if (bytes_eq a password) _ _ (Obeys-log_in id from) (Obeys-reply_login _ 0 from)

    Obeys-deal_login_rq : (buf : Bytes) (len from : ℕ) → Obeys r (deal_login_rq buf len from)
    unfolding deal_login_rq
    Obeys-deal_login_rq buf len from = Obeys-bind _ _ (Obeys-or_stop _ (c_str_at 4 buf)) λ tel.
        Obeys-bind _ _ (Obeys-or_stop _ (c_str_at 16 buf)) λ password.
          Obeys-bind _ _ (Obeys-or_stop _ (sprintf_s 2048 (select_pass tel))) λ sql.
            Obeys-bind _ _ (Obeys-select sql 2 []) λ answer.
              Obeys-if answer.0 _ _ (Obeys-check_password password answer.1 from) (Obeys-pure tt)

  Obeys-deal_offline_rq :
      (buf : Bytes) (len from : ℕ)
      → ((id : ℕ) → Obeys r (remove_online id))
      → r.Small len
      → Obeys r (deal_offline_rq buf len from)
  unfolding deal_offline_rq
  Obeys-deal_offline_rq buf len from leaves small =
      Obeys-bind _ _ (Obeys-or_stop _ (int_at 4 buf)) λ user.
        Obeys-bind _ _ (Obeys-or_stop _ (sprintf_s 2048 (select_friends_offline user))) λ sql.
          Obeys-bind _ _ (Obeys-select sql 1 []) λ answer.
            Obeys-if answer.0 _ _
              (Obeys-bind _ _ (Obeys-forward_to_friends buf len answer.1 small) λ _. leaves user)
              (Obeys-pure tt)

  -- The handlers that do not touch the map of online users.
  pub Obeys-call_handler :
      (h : Handler) (buf : Bytes) (len from : ℕ)
      → h ≢ Handler.login_rq
      → h ≢ Handler.offline_rq
      → r.Small len
      → Obeys r (call_handler h buf len from)
  unfolding call_handler
  Obeys-call_handler Handler.register_rq buf len from n m small =
      Obeys-deal_register_rq buf len from
  Obeys-call_handler Handler.login_rq buf len from n m small = absurd (n refl)
  Obeys-call_handler Handler.offline_rq buf len from n m small = absurd (m refl)
  Obeys-call_handler Handler.chat_rq buf len from n m small = Obeys-deal_chat_rq buf len from small
  Obeys-call_handler Handler.add_friend_rq buf len from n m small =
      Obeys-deal_add_friend_rq buf len from small
  Obeys-call_handler Handler.add_friend_rs buf len from n m small =
      Obeys-deal_add_friend_rs buf len from small

  module _ (enters : (id from : ℕ) → Obeys r (set_online id from))
      (leaves : (id : ℕ) → Obeys r (remove_online id))
      (looks_up : (index : ℕ) → Obeys r (fun_at index)) where
    Obeys-any_handler :
        (h : Handler) (buf : Bytes) (len from : ℕ)
        → r.Small len
        → Obeys r (call_handler h buf len from)
    unfolding call_handler
    Obeys-any_handler Handler.login_rq buf len from small = Obeys-deal_login_rq enters buf len from
    Obeys-any_handler Handler.offline_rq buf len from small =
        Obeys-deal_offline_rq buf len from leaves small
    Obeys-any_handler Handler.register_rq buf len from small =
        Obeys-call_handler Handler.register_rq buf len from (λ e. cc) (λ e. cc) small
    Obeys-any_handler Handler.chat_rq buf len from small =
        Obeys-call_handler Handler.chat_rq buf len from (λ e. cc) (λ e. cc) small
    Obeys-any_handler Handler.add_friend_rq buf len from small =
        Obeys-call_handler Handler.add_friend_rq buf len from (λ e. cc) (λ e. cc) small
    Obeys-any_handler Handler.add_friend_rs buf len from small =
        Obeys-call_handler Handler.add_friend_rs buf len from (λ e. cc) (λ e. cc) small

    pub Obeys-deal_data :
        (buf : Bytes) (len from : ℕ) → r.Small len → Obeys r (deal_data buf len from)
    unfolding deal_data
    Obeys-deal_data buf len from small = Obeys-bind _ _ (Obeys-or_stop _ (int_at 0 buf)) λ type.
        Obeys-if _ _ _
          (Obeys-bind _ _ (looks_up (index_of type)) λ entry.
            Obeys-option entry _ _ (Obeys-pure tt) λ h. Obeys-any_handler h buf len from small)
          (Obeys-pure tt)
