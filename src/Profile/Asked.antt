-- ===== src/Profile/Asked.antt =====
-- getInfoById of IMServer/CKernel.cpp, when the database answers it and when the query fails.
use instance_message.Base.{
  ℕ, ◌<◌, ◌≡◌, refl, ◌∙◌, true, false, some, List, [], ◌∷◌, Bytes, length, length-append, lookup,
  two32, arith,
}
use instance_message.Text.{NoNul, strcpy_s, strcpy_s-fits, strcpy_s-reads, sprintf_s}
use instance_message.Text.Decimal.{format_d, stoi-format_d, length-format_d}
use instance_message.Protocol.{def_name_max_length, def_feeling_max_length, def_user_info}
use instance_message.Protocol.Messages.{UserInfo}
use instance_message.Server.World.{MySqlDriver, World, done}
use instance_message.Server.MySql.{sql_select, select_my_sql, push_rows, push_columns}
use instance_message.Server.Sql.{select_info}
use instance_message.Server.Kernel.Info.{status_of, fill_info, get_info_by_id}
use instance_message.Server.Frame.{bind-done}
use instance_message.Server.Accounts.{Answers}
use instance_message.Server.Registration.{select-Answers}
use instance_message.Profile.Shown.{Profile}

fits_info : (id : ℕ) → sprintf_s 8192 (select_info id) ≡ some (select_info id)
unfolding sprintf_s select_info
fits_info id = ground (arith, length-format_d id, length-append (format_d id) (b';' ∷ []))

one_row :
    (name feeling icon : Bytes)
    → push_rows 3 ((some name ∷ some feeling ∷ some icon ∷ []) ∷ []) []
      ≡ some (name ∷ feeling ∷ icon ∷ [])
unfolding push_rows push_columns
one_row name feeling icon = refl

-- A struct with the type and the arrays of config.h, whatever else is in it.
pub record Blank (info : UserInfo) : Type 0 where
  pub typed : info.type ≡ def_user_info
  pub name_size : length info.name ≡ def_name_max_length
  pub feeling_size : length info.feeling ≡ def_feeling_max_length

module _ {d : MySqlDriver} where
  filled :
      (info : UserInfo) (name feeling name_array feeling_array : Bytes) (icon : ℕ) (w : World d)
      → icon < two32
      → strcpy_s info.name name ≡ some name_array
      → strcpy_s info.feeling feeling ≡ some feeling_array
      → fill_info info (name ∷ feeling ∷ format_d icon ∷ []) w
        ≡ done (record info { name = name_array; feeling = feeling_array; icon_id = icon }) w
  unfolding fill_info
  filled info name feeling name_array feeling_array icon w small n f =
      rw (n, f, stoi-format_d icon small) refl

  asked :
      (id : ℕ) (info : UserInfo) (columns : List Bytes) (w w' : World d)
      → sql_select (select_info id) 3 [] w ≡ done (true, columns) w'
      → get_info_by_id id info w
        ≡ fill_info (record info { id = id; status = status_of (lookup id w.online) }) columns w'
  unfolding get_info_by_id
  asked id info columns w w' e =
      rw (fits_info id) (bind-done (sql_select (select_info id) 3 []) _ e)

  refused :
      (sql : Bytes) (n : ℕ) (w : World d)
      → (d.mysql_query w.db sql).1 ≡ true
      → sql_select sql n [] w ≡ done (false, []) (record w { db = (d.mysql_query w.db sql).0 })
  unfolding select_my_sql
  refused sql n w e = rw e refl

  pub unanswered :
      (id : ℕ) (info : UserInfo) (w : World d)
      → (d.mysql_query w.db (select_info id)).1 ≡ true
      → get_info_by_id id info w
        ≡ done
            (record info { id = id; status = status_of (lookup id w.online) })
            (record w { db = (d.mysql_query w.db (select_info id)).0 })
  unfolding get_info_by_id
  unanswered id info w e =
      rw (fits_info id)
        (bind-done (sql_select (select_info id) 3 []) _ (refused (select_info id) 3 w e))

  -- The struct as it is filled.
  pub record Told (id icon : ℕ) (name feeling : Bytes) (db' : d.Db) (info : UserInfo) (w : World d)
      : Type 0 where
    pub m : UserInfo
    pub profile : Profile m name feeling
    pub number : m.id ≡ id
    pub status : m.status ≡ status_of (lookup id w.online)
    pub icon_same : m.icon_id ≡ icon
    pub ran : get_info_by_id id info w ≡ done m (record w { db = db' })

  pub answered :
      (id icon : ℕ) (name feeling : Bytes) (db' : d.Db) (info : UserInfo) (w : World d)
      → Blank info
      → icon < two32
      → length name < def_name_max_length
      → length feeling < def_feeling_max_length
      → NoNul name
      → NoNul feeling
      → Answers d w.db
          (select_info id)
          ((some name ∷ some feeling ∷ some (format_d icon) ∷ []) ∷ [])
          db'
      → Told id icon name feeling db' info w
  answered id icon name feeling db' info w b icon_fits n f clean clear answers =
      let (name_array, en, ln, rn) =
        strcpy_s-fits info.name name (omega (arith, n, b.name_size)) clean in
      let (feeling_array, ef, lf, rf) =
        strcpy_s-fits info.feeling feeling (omega (arith, f, b.feeling_size)) clear in
      let stamped = record info { id = id; status = status_of (lookup id w.online) } in
      record {
        m = record stamped { name = name_array; feeling = feeling_array; icon_id = icon };
        profile = record {
          typed = b.typed;
          icon_fits = icon_fits;
          name_size = ln ∙ b.name_size;
          feeling_size = lf ∙ b.feeling_size;
          name_reads = λ rest. strcpy_s-reads info.name name rest clean en;
          feeling_reads = rf;
        };
        number = refl;
        status = refl;
        icon_same = refl;
        ran =
            asked id info _ w _ (
              select-Answers (select_info id) 3 _ _ db' w answers
                (one_row name feeling (format_d icon)))
            ∙ filled stamped name feeling name_array feeling_array icon _ icon_fits en ef;
      }
