-- ===== src/Server/Accounts/Spec.antt =====
-- Registration and login on a plain list of accounts.
use instance_message.Base.{
  ℕ, ◌≢◌, ◌==◌, List, [], ◌∷◌, ◌++◌, Bytes, Map, put, bytes_eq, if◌then◌else◌,
}
use instance_message.Protocol.{
  def_rigister_success, def_register_tel_exists, def_register_name_exists, def_login_success,
  def_login_tel_not_register, def_login_password_error,
}
use instance_message.Server.Accounts.Table.{Account, with_tel, with_name}

-- Registration: the result for the client, and the accounts afterwards; `id` is the id that a new
-- account gets.
abbrev pub register_result : (tel name : Bytes) → List Account → ℕ
register_result tel name users = elim (with_tel tel users) [
  | _ ∷ _ ↦ def_register_tel_exists
  | [] ↦ elim (with_name name users) [
    | _ ∷ _ ↦ def_register_name_exists
    | [] ↦ def_rigister_success
  ]
]

abbrev pub register : (id : ℕ) (tel name password : Bytes) → List Account → List Account
register id tel name password users =
    if register_result tel name users == def_rigister_success
    then users ++ record { id = id; tel = tel; name = name; password = password } ∷ []
    else users

-- No two accounts share a telephone number, and no two a name.
abbrev pub IsFresh : Account → List Account → Type 0
IsFresh a [] = Unit {0}
IsFresh a (b ∷ bs) = (a.tel ≢ b.tel) × (a.name ≢ b.name) × IsFresh a bs

abbrev pub Distinct : List Account → Type 0
Distinct [] = Unit {0}
Distinct (a ∷ users) = IsFresh a users × Distinct users

-- Login: the result for the client, and the map of online users afterwards; the account is the
-- first with the telephone number.
abbrev pub login_result : (tel password : Bytes) → List Account → ℕ
login_result tel password users = elim (with_tel tel users) [
  | [] ↦ def_login_tel_not_register
  | a ∷ _ ↦ if bytes_eq a.password password then def_login_success else def_login_password_error
]

abbrev pub login : (tel password : Bytes) (from : ℕ) → List Account → Map ℕ → Map ℕ
login tel password from users online = elim (with_tel tel users) [
  | [] ↦ online
  | a ∷ _ ↦ if bytes_eq a.password password then put a.id from online else online
]
