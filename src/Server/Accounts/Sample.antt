-- ===== src/Server/Accounts/Sample.antt =====
-- A small database that answers the statements of dealRegisterRq and dealLoginRq, which shows that
-- a table of users as the handlers rely on can exist.
use instance_message.Base.{
  ℕ, ◌%◌, ◌<◌, ◌≡◌, refl, ap, ◌∙◌, Bool, true, false, Option, none, some, List, [], ◌∷◌, ◌++◌,
  Bytes, map, drop, length, ascii, two32, arith, if◌then◌else◌, ◌==◌,
}
use instance_message.Server.World.{MySqlDriver, Row}
use instance_message.Server.Sql.{select_tel, select_name, select_pass, insert_user}
use instance_message.Server.Accounts.Table.{
  Account, with_tel, with_name, Unquoted, tel_row, name_row, pass_row, UserTable,
}

pub record Database : Type 0 where
  pub table : List Account
  pub pending : Option (List Row)

abbrev strip : Bytes → Bytes → Option Bytes
strip [] s = some s
strip (x ∷ p) [] = none
strip (x ∷ p) (y ∷ s) = if x == y then strip p s else none

-- The text up to a quote, and what follows the quote.
abbrev until_quote : Bytes → Bytes × Bytes
until_quote [] = ([], [])
until_quote (c ∷ s) =
    let rest = until_quote s in if c == b'\'' then ([], s) else (c ∷ rest.0, rest.1)

until-Unquoted : (s rest : Bytes) → Unquoted s → until_quote (s ++ (b'\'' ∷ rest)) ≡ (s, rest)
until-Unquoted [] rest h = refl
until-Unquoted (c ∷ s) rest h = ground (arith, until-Unquoted s rest h.2)

abbrev pub answering : Database → List Row → Database × Bool
answering db rows = (record db { pending = some rows }, false)

abbrev pub added : Database → (name tel password : Bytes) → Database × Bool
added db name tel password = (
  record db {
    table =
        db.table
        ++ record { id = length db.table % two32; tel = tel; name = name; password = password }
          ∷ [];
  },
  false,
)

abbrev inserting : Database → (name rest : Bytes) → Database × Bool
inserting db name rest =
    let tel = until_quote (drop 2 rest) in added db name tel.0 (until_quote (drop 2 tel.1)).0

abbrev run_insert : Database → Option Bytes → Database × Bool
run_insert db none = (db, true)
run_insert db (some s) = inserting db (until_quote s).0 (until_quote s).1

abbrev run_pass : Database → Bytes → Option Bytes → Database × Bool
run_pass db sql (some s) = answering db (map pass_row (with_tel (until_quote s).0 db.table))
run_pass db sql none =
    run_insert db (strip (ascii "insert into t_user (name,tel,pass,feeling,iconid) values ('") sql)

abbrev run_name : Database → Bytes → Option Bytes → Database × Bool
run_name db sql (some s) = answering db (map name_row (with_name (until_quote s).0 db.table))
run_name db sql none = run_pass db sql (strip (ascii "select pass,id from t_user where tel='") sql)

abbrev run_tel : Database → Bytes → Option Bytes → Database × Bool
run_tel db sql (some s) = answering db (map tel_row (with_tel (until_quote s).0 db.table))
run_tel db sql none = run_name db sql (strip (ascii "select name from t_user where name='") sql)

abbrev pub small : MySqlDriver
small = record {
  Db = Database;
  mysql_query = λ db sql. run_tel db sql (strip (ascii "select tel from t_user where tel='") sql);
  mysql_store_result = λ db. (record db { pending = none }, db.pending);
}

abbrev pub settled : Database → Database
settled db = record db { pending = none }

pub asks_tel :
    (db : Database) (tel : Bytes)
    → Unquoted tel
    → small.mysql_query db (select_tel tel) ≡ answering db (map tel_row (with_tel tel db.table))
unfolding select_tel
asks_tel db tel h =
    ap (λ r. answering db (map tel_row (with_tel r.0 db.table))) (until-Unquoted tel (b';' ∷ []) h)

pub asks_name :
    (db : Database) (name : Bytes)
    → Unquoted name
    → small.mysql_query db (select_name name)
      ≡ answering db (map name_row (with_name name db.table))
unfolding select_name
asks_name db name h =
    ap (λ r. answering db (map name_row (with_name r.0 db.table)))
      (until-Unquoted name (b';' ∷ []) h)

pub asks_pass :
    (db : Database) (tel : Bytes)
    → Unquoted tel
    → small.mysql_query db (select_pass tel) ≡ answering db (map pass_row (with_tel tel db.table))
unfolding select_pass
asks_pass db tel h =
    ap (λ r. answering db (map pass_row (with_tel r.0 db.table))) (until-Unquoted tel (b';' ∷ []) h)

pub adds :
    (db : Database) (name tel password : Bytes)
    → Unquoted name
    → Unquoted tel
    → Unquoted password
    → small.mysql_query db (insert_user name tel password) ≡ added db name tel password
unfolding insert_user
adds db name tel password n t p =
    ap (λ r. inserting db r.0 r.1) (until-Unquoted name _ n)
    ∙ ap (λ r. added db name r.0 (until_quote (drop 2 r.1)).0) (until-Unquoted tel _ t)
    ∙ ap (λ r. added db name tel r.0) (until-Unquoted password _ p)

pub id_is_32_bit : (n : ℕ) → n % two32 < two32
id_is_32_bit n = omega arith

abbrev pub small_table : UserTable small
small_table = record {
  accounts = λ db. db.table;
  by_tel = λ db tel h.
      (settled db, record { asked = _; query = asks_tel db tel h.1; store = refl }, refl);
  by_name = λ db name h.
      (settled db, record { asked = _; query = asks_name db name h.1; store = refl }, refl);
  password_of = λ db tel h.
      (settled db, record { asked = _; query = asks_pass db tel h.1; store = refl }, refl);
  inserted = λ db name tel password n t p.
      (_, _, id_is_32_bit _, adds db name tel password n.1 t.1 p.1, refl);
}
