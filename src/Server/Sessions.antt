-- ===== src/Server/Sessions.antt =====
-- dealLoginRq of CKernel.cpp over a table of users: it implements `login` of Accounts, and whoever
-- has registered can log in.
use instance_message.Base.{
  ℕ, ◌<◌, ◌≡◌, refl, sym, ap, ◌∙◌, inl, inr, some, List, [], ◌∷◌, ◌++◌, Bytes, map, put, lookup,
  two32, arith, Bool-cases, bytes_eq, length, length-append, append_assoc, append-nil, int_bytes,
}
use instance_message.Text.{c_str_at, sprintf_s}
use instance_message.Text.Decimal.{format_d, stoi-format_d}
use instance_message.Protocol.{def_login_success}
use instance_message.Protocol.Messages.{new_login_rs, encode_login_rs}
use instance_message.Server.World.{MySqlDriver, World, done, c_str_from, print_to}
use instance_message.Server.MySql.{push_rows, push_columns, sql_select}
use instance_message.Server.Sql.{select_pass}
use instance_message.Server.Kernel.Account.{reply_login, log_in, check_password, deal_login_rq}
use instance_message.Server.Frame.{
  after, bind-done, or_stop-done, Keeps-get_user_info_and_friend_info,
}
use instance_message.Server.Chatting.{traced, sent_over, send_data-delivery}
use instance_message.Server.Registration.{select-Answers}
use instance_message.Server.Accounts.{Account, with_tel, pass_row, Storable, UserTable, login}

-- The columns of the answer in the order in which the list holds them.
abbrev columns : List Account → List Bytes
columns [] = []
columns (a ∷ users) = a.password ∷ format_d a.id ∷ columns users

push_pass_rows :
    (users : List Account) (lst : List Bytes)
    → push_rows 2 (map pass_row users) lst ≡ some (lst ++ columns users)
unfolding push_rows push_columns
push_pass_rows [] lst = ap some (sym (append-nil lst))
push_pass_rows (a ∷ users) lst =
    push_pass_rows users ((lst ++ a.password ∷ []) ++ format_d a.id ∷ [])
    ∙ ap some (
        append_assoc (lst ++ a.password ∷ []) (format_d a.id ∷ []) (columns users)
        ∙ append_assoc lst (a.password ∷ []) (format_d a.id ∷ columns users))

pub fits_pass :
    (tel : Bytes) → length tel < 20 → sprintf_s 2048 (select_pass tel) ≡ some (select_pass tel)
unfolding sprintf_s select_pass
fits_pass tel h = ground (arith, length-append tel (b'\'' ∷ b';' ∷ []))

abbrev pub login_packet : (result id : ℕ) → Bytes
login_packet result id = encode_login_rs (record new_login_rs { result = result; id = id })

abbrev pub IdsFit : List Account → Type 0
IdsFit [] = Unit {0}
IdsFit (a ∷ users) = (a.id < two32) × IdsFit users

with_tel-IdsFit : (tel : Bytes) (users : List Account) → IdsFit users → IdsFit (with_tel tel users)
with_tel-IdsFit tel [] h = tt
with_tel-IdsFit tel (a ∷ users) h = elim (Bool-cases (bytes_eq a.tel tel)) [
  | inl e ↦ rw e (h.0, with_tel-IdsFit tel users h.1)
  | inr e ↦ rw e (with_tel-IdsFit tel users h.1)
]

module _ {d : MySqlDriver} where
  pub replies_login :
      (result id from : ℕ) (w : World d)
      → reply_login result id from w
        ≡ done tt (traced w (sent_over (login_packet result id) (lookup from w.clients)))
  unfolding reply_login encode_login_rs int_bytes
  replies_login result id from w = send_data-delivery from (login_packet result id) w

  log_in-enters :
      (id from : ℕ) (w : World d) → (after (log_in id from w)).online ≡ put id from w.online
  unfolding log_in
  log_in-enters id from w =
      ap (λ o. (after o).online)
        (bind-done (reply_login def_login_success id from) _
          (replies_login def_login_success id from w))
      ∙ ((Keeps-get_user_info_and_friend_info id).same _).online

  checked :
      (tel password : Bytes) (from : ℕ) (w : World d) (users found : List Account)
      → with_tel tel users ≡ found
      → IdsFit found
      → (after (check_password password (columns found) from w)).online
        ≡ login tel password from users w.online
  unfolding check_password
  checked tel password from w users [] e fit =
      ap (λ o. (after o).online) (replies_login _ 0 from w) ∙ ground arith
  checked tel password from w users (a ∷ rest) e fit =
      elim (Bool-cases (bytes_eq a.password password)) [
        | inl same ↦
            let spec : put a.id from w.online ≡ login tel password from users w.online =
              ground arith in
            rw (stoi-format_d a.id fit.0, same) (log_in-enters a.id from w) ∙ spec
        | inr other ↦
            let spec : w.online ≡ login tel password from users w.online = ground arith in
            rw (stoi-format_d a.id fit.0, other)
              (ap (λ o. (after o).online) (replies_login _ 0 from w))
            ∙ spec
      ]

  module _ (t : UserTable d) (buf : Bytes) (len from : ℕ) (tel password : Bytes)
      (reads_tel : c_str_at 4 buf ≡ some tel) (reads_password : c_str_at 16 buf ≡ some password)
      (tel_fits : Storable tel) where
    -- Over any table of users whose ids have 32 bits, a login request whose telephone number has
    -- fewer than 20 bytes and holds no quote and no backslash leaves the map of online users as
    -- `login` says: its sender is entered exactly when there is an account with the telephone
    -- number and the first such account has the password, under the id of that account.
    pub login_refines :
        (w : World d)
        → IdsFit (t.accounts w.db)
        → (after (deal_login_rq buf len from w)).online
          ≡ login tel password from (t.accounts w.db) w.online
    unfolding deal_login_rq
    login_refines w fit =
        let (db', answers, kept) = t.password_of w.db tel tel_fits in
        ap (λ o. (after o).online)
          (bind-done (c_str_from 4 buf) _ (or_stop-done _ w reads_tel)
            ∙ bind-done (c_str_from 16 buf) _ (or_stop-done _ w reads_password)
            ∙ bind-done (print_to 2048 (select_pass tel)) _
                (or_stop-done _ w (fits_pass tel tel_fits.0))
            ∙ bind-done (sql_select (select_pass tel) 2 []) _ (
                select-Answers (select_pass tel) 2 _ _ db' w answers
                  (push_pass_rows (with_tel tel (t.accounts w.db)) [])))
        ∙ checked tel password from (record w { db = db' }) (t.accounts w.db) _ refl
            (with_tel-IdsFit tel (t.accounts w.db) fit)
