-- ===== src/Server/MySql.antt =====
-- IMServer/MySQL/CMySql.cpp and SqlManager.cpp: statements run through the client library, and the
-- columns of a result appended to a list of strings.
use instance_message.Base.{
  ℕ, zero, suc, ◌++◌, Bool, true, false, Option, none, some, List, [], ◌∷◌, Bytes, if◌then◌else◌,
}
use instance_message.Server.World.{
  MySqlDriver, Row, World, M, done, stopped, out_of_bounds, Outcome,
}

-- The first columns of a row, a null pointer as the empty string; `none` when the row is shorter.
unfoldable pub push_columns : ℕ → Row → List Bytes → Option (List Bytes)
push_columns zero row lst = some lst
push_columns (suc n) [] lst = none
push_columns (suc n) (none ∷ row) lst = push_columns n row (lst ++ [] ∷ [])
push_columns (suc n) (some c ∷ row) lst = push_columns n row (lst ++ c ∷ [])

unfoldable pub push_rows : ℕ → List Row → List Bytes → Option (List Bytes)
push_rows n [] lst = some lst
push_rows n (row ∷ rows) lst = elim (push_columns n row lst) [
  | none ↦ none
  | some l ↦ push_rows n rows l
]

-- `lstStr.push_back( m_record[ 0 ] )` for each row; `none` is a string made of a null pointer, or a
-- row without columns.
unfoldable pub push_tables : List Row → List Bytes → Option (List Bytes)
push_tables [] lst = some lst
push_tables ([] ∷ rows) lst = none
push_tables ((none ∷ row) ∷ rows) lst = none
push_tables ((some c ∷ row) ∷ rows) lst = push_tables rows (lst ++ c ∷ [])

module _ {d : MySqlDriver} where
  abbrev rows_pushed : World d → Option (List Bytes) → Outcome d (Bool × List Bytes)
  rows_pushed w none = stopped out_of_bounds w
  rows_pushed w (some l) = done (true, l) w

  -- SelectMySql: whether the statement succeeded, and the list that it was handed, extended.
  unfoldable pub select_my_sql : Bytes → ℕ → List Bytes → M d (Bool × List Bytes)
  unfolding push_rows push_columns
  select_my_sql sql n_column lst w =
      let (db, failed) = d.mysql_query w.db sql in
      let (db', results) = d.mysql_store_result db in
      if failed then done (false, lst) (record w { db = db }) else (elim results [
        | none ↦ done (false, lst) (record w { db = db' })
        | some rows ↦ rows_pushed (record w { db = db' }) (push_rows n_column rows lst)
      ])

  -- GetTables
  unfoldable pub get_tables : Bytes → List Bytes → M d (Bool × List Bytes)
  unfolding push_tables
  get_tables sql lst w =
      let (db, failed) = d.mysql_query w.db sql in
      let (db', results) = d.mysql_store_result db in
      if failed then done (false, lst) (record w { db = db }) else (elim results [
        | none ↦ done (false, lst) (record w { db = db' })
        | some rows ↦ rows_pushed (record w { db = db' }) (push_tables rows lst)
      ])

  -- UpdateMySql; the statement is a pointer, `none` the null pointer.
  unfoldable pub update_my_sql : Option Bytes → M d Bool
  update_my_sql none w = done false w
  update_my_sql (some sql) w =
      let (db, failed) = d.mysql_query w.db sql in
      if failed then done false (record w { db = db }) else done true (record w { db = db })

  -- SQLManager::select and update, which the macros `SQLselect` and `SQLupdate` call.
  abbrev pub sql_select : Bytes → ℕ → List Bytes → M d (Bool × List Bytes)
  sql_select = select_my_sql

  abbrev pub sql_update : Bytes → M d Bool
  sql_update sql = update_my_sql (some sql)

  -- SQLManager::getTable, which the macro `SQLgetTab` calls.
  abbrev pub sql_get_tab : Bytes → List Bytes → M d (Bool × List Bytes)
  sql_get_tab = get_tables
