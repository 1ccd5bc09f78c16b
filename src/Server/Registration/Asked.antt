-- ===== src/Server/Registration/Asked.antt =====
-- dealRegisterRq of CKernel.cpp, one question to the database after the other.
use instance_message.Base.{
  ℕ, ◌<◌, ◌≡◌, sym, ap, ◌∙◌, true, some, List, [], ◌∷◌, ◌++◌, Bytes, map, length, length-append,
  lookup, arith, if◌then◌else◌, append-nil, append_assoc, int_bytes,
}
use instance_message.Text.{c_str_at, sprintf_s}
use instance_message.Protocol.{
  def_rigister_success, def_register_tel_exists, def_register_name_exists,
}
use instance_message.Protocol.Messages.{new_register_rs, encode_register_rs}
use instance_message.Server.World.{
  MySqlDriver, Row, World, M, done, c_str_from, print_to, ◌>>=◌, pure,
}
use instance_message.Server.MySql.{push_rows, push_columns, select_my_sql, sql_select, sql_update}
use instance_message.Server.Sql.{select_tel, select_name, insert_user}
use instance_message.Server.Kernel.Account.{reply_register, register_new_tel, deal_register_rq}
use instance_message.Server.Frame.{bind-done, or_stop-done}
use instance_message.Server.Chatting.{traced, sent_over, send_data-delivery}
use instance_message.Server.Accounts.{Account, tel_row, name_row, Answers}

push_tel_rows :
    (users : List Account) (lst : List Bytes)
    → push_rows 1 (map tel_row users) lst ≡ some (lst ++ map (λ a. a.tel) users)
unfolding push_rows push_columns
push_tel_rows [] lst = ap some (sym (append-nil lst))
push_tel_rows (a ∷ users) lst =
    push_tel_rows users (lst ++ a.tel ∷ [])
    ∙ ap some (append_assoc lst (a.tel ∷ []) (map (λ a. a.tel) users))

push_name_rows :
    (users : List Account) (lst : List Bytes)
    → push_rows 1 (map name_row users) lst ≡ some (lst ++ map (λ a. a.name) users)
unfolding push_rows push_columns
push_name_rows [] lst = ap some (sym (append-nil lst))
push_name_rows (a ∷ users) lst =
    push_name_rows users (lst ++ a.name ∷ [])
    ∙ ap some (append_assoc lst (a.name ∷ []) (map (λ a. a.name) users))

fits_tel : (tel : Bytes) → length tel < 20 → sprintf_s 2064 (select_tel tel) ≡ some (select_tel tel)
unfolding sprintf_s select_tel
fits_tel tel h = ground (arith, length-append tel (b'\'' ∷ b';' ∷ []))

fits_name :
    (name : Bytes) → length name < 20 → sprintf_s 2064 (select_name name) ≡ some (select_name name)
unfolding sprintf_s select_name
fits_name name h = ground (arith, length-append name (b'\'' ∷ b';' ∷ []))

pub fits_user :
    (name tel password : Bytes)
    → length name < 20
    → length tel < 20
    → length password < 20
    → sprintf_s 2064 (insert_user name tel password) ≡ some (insert_user name tel password)
unfolding sprintf_s insert_user
fits_user name tel password a b c = grind (arith, length-append)

abbrev pub registered_packet : ℕ → Bytes
registered_packet result = encode_register_rs (record new_register_rs { result = result })

module _ {d : MySqlDriver} where
  -- What a select returns when the database answers it.
  pub select-Answers :
      (sql : Bytes) (n : ℕ) (rows : List Row) (l : List Bytes) (db' : d.Db) (w : World d)
      → Answers d w.db sql rows db'
      → push_rows n rows [] ≡ some l
      → select_my_sql sql n [] w ≡ done (true, l) (record w { db = db' })
  unfolding select_my_sql
  select-Answers sql n rows l db' w a p = ground (arith, a.query, a.store, p)

  pub replies :
      (result from : ℕ) (w : World d)
      → reply_register result from w
        ≡ done tt (traced w (sent_over (registered_packet result) (lookup from w.clients)))
  unfolding reply_register encode_register_rs int_bytes
  replies result from w = send_data-delivery from (registered_packet result) w

  module _ (buf : Bytes) (len from : ℕ) (tel name password : Bytes) where
    pub tel_asked :
        (w : World d) (db' : d.Db) (users : List Account) (l : List Bytes)
        → length tel < 20
        → c_str_at 4 buf ≡ some tel
        → Answers d w.db (select_tel tel) (map tel_row users) db'
        → map (λ (a : Account). a.tel) users ≡ l
        → deal_register_rq buf len from w
          ≡ (elim l as (λ _. M d (Unit {0})) [
            | _ ∷ _ ↦ reply_register def_register_tel_exists from
            | [] ↦ register_new_tel buf tel from
          ])
              (record w { db = db' })
    unfolding deal_register_rq
    tel_asked w db' users l small e answers found =
        bind-done (c_str_from 4 buf) _ (or_stop-done _ w e)
        ∙ bind-done (print_to 2064 (select_tel tel)) _ (or_stop-done _ w (fits_tel tel small))
        ∙ bind-done (sql_select (select_tel tel) 1 []) _ (
            select-Answers (select_tel tel) 1 _ l db' w answers
              (push_tel_rows users [] ∙ ap some found))

    pub name_asked :
        (w : World d) (db' : d.Db) (users : List Account) (l : List Bytes)
        → length name < 20
        → c_str_at 36 buf ≡ some name
        → Answers d w.db (select_name name) (map name_row users) db'
        → map (λ (a : Account). a.name) users ≡ l
        → register_new_tel buf tel from w
          ≡ (elim l as (λ _. M d (Unit {0})) [
            | _ ∷ _ ↦ reply_register def_register_name_exists from
            | [] ↦ c_str_from 16 buf >>= λ p. print_to 2064 (insert_user name tel p) >>= λ insert.
                sql_update insert >>= λ updated.
                if updated then reply_register def_rigister_success from else pure tt
          ])
              (record w { db = db' })
    unfolding register_new_tel
    name_asked w db' users l small e answers found =
        bind-done (c_str_from 36 buf) _ (or_stop-done _ w e)
        ∙ bind-done (print_to 2064 (select_name name)) _ (or_stop-done _ w (fits_name name small))
        ∙ bind-done (sql_select (select_name name) 1 []) _ (
            select-Answers (select_name name) 1 _ l db' w answers
              (push_name_rows users [] ∙ ap some found))
