-- ===== src/Server/Accounts/Table.antt =====
-- What the handlers rely on of the table `t_user` behind the MySQL client library.
use instance_message.Base.{
  ℕ, ◌<◌, ◌≡◌, ◌≢◌, false, some, List, [], ◌∷◌, ◌++◌, Bytes, map, bytes_eq, length, if◌then◌else◌,
  two32,
}
use instance_message.Text.Decimal.{format_d}
use instance_message.Server.World.{MySqlDriver, Row}
use instance_message.Server.Sql.{select_tel, select_name, select_pass, insert_user}

-- A row of `t_user`; the signature and the icon are the same for all.
pub record Account : Type 0 where
  pub id : ℕ
  pub tel : Bytes
  pub name : Bytes
  pub password : Bytes

abbrev pub with_tel : Bytes → List Account → List Account
with_tel tel [] = []
with_tel tel (a ∷ users) = if bytes_eq a.tel tel then a ∷ with_tel tel users else with_tel tel users

abbrev pub with_name : Bytes → List Account → List Account
with_name name [] = []
with_name name (a ∷ users) =
    if bytes_eq a.name name then a ∷ with_name name users else with_name name users

abbrev pub Unquoted : Bytes → Type 0
Unquoted [] = Unit {0}
Unquoted (c ∷ s) = (c ≢ b'\'') × (c ≢ b'\\') × Unquoted s

-- A text that a literal between quotes stands for as it is, and that the columns have room for.
abbrev pub Storable : Bytes → Type 0
Storable s = (length s < 20) × Unquoted s

abbrev pub tel_row : Account → Row
tel_row a = some a.tel ∷ []

abbrev pub name_row : Account → Row
name_row a = some a.name ∷ []

abbrev pub pass_row : Account → Row
pass_row a = some a.password ∷ some (format_d a.id) ∷ []

module _ (d : MySqlDriver) where
  -- A query that succeeds with rows, and the database that it leaves.
  pub record Answers (db : d.Db) (sql : Bytes) (rows : List Row) (db' : d.Db) : Type 0 where
    pub asked : d.Db
    pub query : d.mysql_query db sql ≡ (asked, false)
    pub store : d.mysql_store_result asked ≡ (db', some rows)

  -- A database that is up and holds accounts, whose statements do what they say: a query leaves the
  -- accounts alone, and an insertion adds one under an id of 32 bits. Texts are compared byte by
  -- byte.
  pub record UserTable : Type 0 where
    pub accounts : d.Db → List Account
    pub by_tel :
        (db : d.Db) (tel : Bytes)
        → Storable tel
        → (db' : d.Db) × Answers db (select_tel tel) (map tel_row (with_tel tel (accounts db))) db'
          × (accounts db' ≡ accounts db)
    pub by_name :
        (db : d.Db) (name : Bytes)
        → Storable name
        → (db' : d.Db) × Answers db
            (select_name name)
            (map name_row (with_name name (accounts db)))
            db'
          × (accounts db' ≡ accounts db)
    pub password_of :
        (db : d.Db) (tel : Bytes)
        → Storable tel
        → (db' : d.Db) × Answers db
            (select_pass tel)
            (map pass_row (with_tel tel (accounts db)))
            db'
          × (accounts db' ≡ accounts db)
    pub inserted :
        (db : d.Db) (name tel password : Bytes)
        → Storable name
        → Storable tel
        → Storable password
        → (db' : d.Db) × (id : ℕ) × (id < two32)
          × (d.mysql_query db (insert_user name tel password) ≡ (db', false))
          × (accounts db'
              ≡ accounts db ++ record { id = id; tel = tel; name = name; password = password } ∷ [])
