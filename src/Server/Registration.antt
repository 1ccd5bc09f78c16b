-- ===== src/Server/Registration.antt =====
-- dealRegisterRq of CKernel.cpp: it implements `register` of Accounts, over any table of users.
mod Asked
pub use Asked.{select-Answers}
use Asked.{fits_user, registered_packet, replies, tel_asked, name_asked}
use instance_message.Base.{
  true, false, ℕ, ◌<◌, ◌≡◌, refl, sym, ap, ◌∙◌, inl, inr, some, List, [], ◌∷◌, ◌++◌, Bytes, map,
  lookup, two32, arith, List-cases,
}
use instance_message.Text.{c_str_at}
use instance_message.Protocol.{
  def_rigister_success, def_register_tel_exists, def_register_name_exists,
}
use instance_message.Server.World.{MySqlDriver, World, done, c_str_from, print_to}
use instance_message.Server.MySql.{sql_update}
use instance_message.Server.Sql.{insert_user}
use instance_message.Server.Kernel.Account.{reply_register, deal_register_rq}
use instance_message.Server.Frame.{bind-done, or_stop-done, update-done}
use instance_message.Server.Chatting.{traced, sent_over}
use instance_message.Server.Accounts.{
  Account, with_tel, with_name, Storable, UserTable, register_result, register,
}

module _ {d : MySqlDriver} where
  -- What a registration request comes to: the accounts are those of `register`, the result goes to
  -- the client that asked, if it is connected, and nothing else changes.
  pub record Registered (t : UserTable d) (tel name password : Bytes) (from : ℕ) (w v : World d)
      : Type 0 where
    pub id : ℕ
    pub id_is_32_bit : id < two32
    pub accounts : t.accounts v.db ≡ register id tel name password (t.accounts w.db)
    pub answered :
        v.trace
        ≡ w.trace
          ++ sent_over
              (registered_packet (register_result tel name (t.accounts w.db)))
              (lookup from w.clients)
    pub online : v.online ≡ w.online
    pub clients : v.clients ≡ w.clients

  -- A reply after which the database holds the accounts of `register`.
  concluded :
      (t : UserTable d) (tel name password : Bytes) (from id : ℕ) (w : World d) (db' : d.Db)
      → id < two32
      → t.accounts db' ≡ register id tel name password (t.accounts w.db)
      → Registered t tel name password from w (
          traced
            (record w { db = db' })
            (sent_over
              (registered_packet (register_result tel name (t.accounts w.db)))
              (lookup from w.clients)))
  concluded t tel name password from id w db' small e = record {
    id = id;
    id_is_32_bit = small;
    accounts = e;
    answered = refl;
    online = refl;
    clients = refl;
  }

  -- The run of a registration request, from the database that it leaves.
  abbrev RunsTo :
      UserTable d → (buf : Bytes) (len from : ℕ) (tel name password : Bytes) → World d → Type 0
  RunsTo t buf len from tel name password w =
      (db' : d.Db) × (id : ℕ) × (id < two32)
      × (t.accounts db' ≡ register id tel name password (t.accounts w.db))
      × (deal_register_rq buf len from w
          ≡ reply_register (register_result tel name (t.accounts w.db)) from
              (record w { db = db' }))

  module _ (t : UserTable d) (buf : Bytes) (len from : ℕ) (tel name password : Bytes)
      (reads_tel : c_str_at 4 buf ≡ some tel) (reads_name : c_str_at 36 buf ≡ some name)
      (reads_password : c_str_at 16 buf ≡ some password) (tel_fits : Storable tel)
      (name_fits : Storable name) (password_fits : Storable password) where
    replied :
        (w : World d) (db' : d.Db) (result : ℕ)
        → deal_register_rq buf len from w ≡ reply_register result from (record w { db = db' })
        → register_result tel name (t.accounts w.db) ≡ result
        → deal_register_rq buf len from w
          ≡ reply_register (register_result tel name (t.accounts w.db)) from (record w { db = db' })
    replied w db' result run e =
        run ∙ ap (λ r. reply_register r from (record w { db = db' })) (sym e)

    tel_is_taken :
        (w : World d) (a : Account) (users : List Account)
        → with_tel tel (t.accounts w.db) ≡ a ∷ users
        → RunsTo t buf len from tel name password w
    tel_is_taken w a users e =
        let (db1, answers, kept) = t.by_tel w.db tel tel_fits in
        (
          db1,
          0,
          omega arith,
          ground (arith, kept),
          replied w db1 def_register_tel_exists
              (tel_asked buf len from tel name password w db1 (with_tel tel (t.accounts w.db)) _
                tel_fits.0 reads_tel answers (ap (map (λ (x : Account). x.tel)) e))
              (ground arith),
        )

    name_is_taken :
        (w : World d) (a : Account) (users : List Account)
        → with_tel tel (t.accounts w.db) ≡ []
        → with_name name (t.accounts w.db) ≡ a ∷ users
        → RunsTo t buf len from tel name password w
    name_is_taken w a users e f =
        let (db1, answers1, kept1) = t.by_tel w.db tel tel_fits in
        let (db2, answers2, kept2) = t.by_name db1 name name_fits in
        (
          db2,
          0,
          omega arith,
          ground (arith, kept1, kept2),
          replied w db2 def_register_name_exists
              (tel_asked buf len from tel name password w db1 (with_tel tel (t.accounts w.db)) _
                  tel_fits.0 reads_tel answers1 (ap (map (λ (x : Account). x.tel)) e)
                ∙ name_asked buf len from tel name password (record w { db = db1 }) db2
                    (with_name name (t.accounts db1)) _ name_fits.0 reads_name answers2
                    (ap (λ u. map (λ (x : Account). x.name) (with_name name u)) kept1
                      ∙ ap (map (λ (x : Account). x.name)) f))
              (ground arith),
        )

    account_is_free :
        (w : World d)
        → with_tel tel (t.accounts w.db) ≡ []
        → with_name name (t.accounts w.db) ≡ []
        → RunsTo t buf len from tel name password w
    account_is_free w e f =
        let (db1, answers1, kept1) = t.by_tel w.db tel tel_fits in
        let (db2, answers2, kept2) = t.by_name db1 name name_fits in
        let (db3, id, small, insertion, added) =
          t.inserted db2 name tel password name_fits tel_fits password_fits in
        (
          db3,
          id,
          small,
          ground (arith, kept1, kept2, added),
          replied w db3 def_rigister_success
              (tel_asked buf len from tel name password w db1 (with_tel tel (t.accounts w.db)) _
                  tel_fits.0 reads_tel answers1 (ap (map (λ (x : Account). x.tel)) e)
                ∙ name_asked buf len from tel name password (record w { db = db1 }) db2
                    (with_name name (t.accounts db1)) _ name_fits.0 reads_name answers2
                    (ap (λ u. map (λ (x : Account). x.name) (with_name name u)) kept1
                      ∙ ap (map (λ (x : Account). x.name)) f)
                ∙ bind-done (c_str_from 16 buf) _
                    (or_stop-done _ (record w { db = db2 }) reads_password)
                ∙ bind-done (print_to 2064 (insert_user name tel password)) _ (
                    or_stop-done _ (record w { db = db2 })
                      (fits_user name tel password name_fits.0 tel_fits.0 password_fits.0))
                ∙ bind-done (sql_update (insert_user name tel password)) _ (
                    update-done (insert_user name tel password) false (record w { db = db2 })
                      (ap (λ r. r.1) insertion)
                    ∙ ap (λ r. done true (record w { db = r.0 })) insertion))
              (ground arith),
        )

    runs : (w : World d) → RunsTo t buf len from tel name password w
    runs w = elim (List-cases (with_tel tel (t.accounts w.db))) [
      | inr (a, users, e) ↦ tel_is_taken w a users e
      | inl e ↦ elim (List-cases (with_name name (t.accounts w.db))) [
        | inr (a, users, f) ↦ name_is_taken w a users e f
        | inl f ↦ account_is_free w e f
      ]
    ]

    -- A registration request whose three texts can be stored is answered as `register` says, over
    -- any table of users: an account is added exactly when neither its telephone number nor its
    -- name is taken, under some 32-bit id.
    pub registration_refines :
        (w : World d)
        → (v : World d) × (deal_register_rq buf len from w ≡ done tt v)
          × Registered t tel name password from w v
    registration_refines w =
        let (db', id, small, held, ran) = runs w in
        (
          _,
          ran ∙ replies (register_result tel name (t.accounts w.db)) from (record w { db = db' }),
          concluded t tel name password from id w db' small held,
        )
