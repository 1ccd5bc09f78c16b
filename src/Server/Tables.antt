-- ===== src/Server/Tables.antt =====
-- GetTables of IMServer/MySQL/CMySql.cpp against SelectMySql.
use instance_message.Base.{
  ◌≡◌, ◌⊎◌, refl, Bool-cases, Option-cases, inl, inr, Option, none, some, List, [], ◌∷◌, ◌++◌,
  Bytes,
}
use instance_message.Server.World.{MySqlDriver, Row, World, stopped, out_of_bounds}
use instance_message.Server.MySql.{push_columns, push_rows, push_tables, select_my_sql, get_tables}

-- A null pointer in the first column, before any row without columns.
abbrev pub NullFirst : List Row → Type 0
NullFirst [] = ⊥
NullFirst ([] ∷ rows) = ⊥
NullFirst ((none ∷ row) ∷ rows) = Unit {0}
NullFirst ((some c ∷ row) ∷ rows) = NullFirst rows

tables_or_null :
    (rows : List Row) (lst : List Bytes)
    → (push_tables rows lst ≡ push_rows 1 rows lst)
      ⊎ (NullFirst rows × (push_tables rows lst ≡ none))
unfolding push_tables push_rows push_columns
tables_or_null [] lst = inl refl
tables_or_null ([] ∷ rows) lst = inl refl
tables_or_null ((none ∷ row) ∷ rows) lst = inr (tt, refl)
tables_or_null ((some c ∷ row) ∷ rows) lst = tables_or_null rows (lst ++ c ∷ [])

module _ {d : MySqlDriver} where
  -- The database that a query leaves, with its answer.
  abbrev pub answer_to : Bytes → World d → d.Db × Option (List Row)
  answer_to sql w = d.mysql_store_result (d.mysql_query w.db sql).0

  -- GetTables does what SelectMySql does for one column, whatever the connection answers and on every
  -- error, unless the first column of a row is a null pointer: of that SelectMySql makes an empty
  -- string, and GetTables a string from a null pointer.
  get_tables_is_select :
      (sql : Bytes) (lst : List Bytes) (w : World d)
      → (get_tables sql lst w ≡ select_my_sql sql 1 lst w)
        ⊎ ((rows : List Row) × ((answer_to sql w).1 ≡ some rows)
            × NullFirst rows
            × (get_tables sql lst w
                ≡ stopped out_of_bounds (record w { db = (answer_to sql w).0 })))
  unfolding get_tables select_my_sql
  get_tables_is_select sql lst w = elim (Bool-cases (d.mysql_query w.db sql).1) [
    | inl failed ↦ inl (rw failed refl)
    | inr ran ↦ elim (Option-cases (answer_to sql w).1) [
      | inl nothing ↦ inl (rw (ran, nothing) refl)
      | inr (rows, e) ↦ elim (tables_or_null rows lst) [
        | inl same ↦ inl (rw (ran, e, same) refl)
        | inr (null, stops) ↦ inr (rows, e, null, rw (ran, e, stops) refl)
      ]
    ]
  ]
