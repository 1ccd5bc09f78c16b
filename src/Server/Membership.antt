-- ===== src/Server/Membership.antt =====
-- Runs of dealRegisterRq and dealLoginRq of CKernel.cpp one after the other, over a table of users.
mod Examples
use instance_message.Base.{
  ℕ, ◌<◌, ◌≡◌, refl, ◌==◌, append-nil, append_assoc, sym, ap, ◌∙◌, subst, inl, inr, Bool-cases,
  List-cases, Map, some, List, [], ◌∷◌, ◌++◌, Bytes, put, two32, arith, bytes_eq, bytes_eq_refl,
}
use instance_message.Text.{c_str_at}
use instance_message.Protocol.{def_rigister_success}
use instance_message.Server.World.{MySqlDriver, World, done}
use instance_message.Server.Kernel.Account.{deal_register_rq, deal_login_rq}
use instance_message.Server.Frame.{after}
use instance_message.Server.Registration.{Registered, registration_refines}
use instance_message.Server.Sessions.{IdsFit, login_refines}
use instance_message.Server.Accounts.{
  Account, with_tel, Storable, UserTable, register, register_result, login, Distinct,
  register-Distinct,
}

-- A registration packet whose texts can be stored.
pub record Request : Type 0 where
  pub buf : Bytes
  pub tel : Bytes
  pub name : Bytes
  pub password : Bytes
  pub reads_tel : c_str_at 4 buf ≡ some tel
  pub reads_name : c_str_at 36 buf ≡ some name
  pub reads_password : c_str_at 16 buf ≡ some password
  pub tel_fits : Storable tel
  pub name_fits : Storable name
  pub password_fits : Storable password

-- The worlds that registrations lead to, of any clients and in any order.
pub data Registrations {d : MySqlDriver} (w : World d) : World d → Type 0 where
  none_yet : Registrations w w
  one_more :
      {v u : World d} (r : Request) (len from : ℕ)
      → Registrations w v
      → deal_register_rq r.buf len from v ≡ done tt u
      → Registrations w u

first_with_tel :
    (a : Account) (users more : List Account)
    → with_tel a.tel users ≡ []
    → with_tel a.tel (users ++ a ∷ more) ≡ a ∷ with_tel a.tel more
first_with_tel a [] more h = rw (bytes_eq_refl a.tel)
first_with_tel a (b ∷ users) more h = elim (Bool-cases (bytes_eq b.tel a.tel)) [
  | inl e ↦ absurd (ground arith)
  | inr e ↦
      let rest : with_tel a.tel users ≡ [] = ground arith in
      ground (arith, first_with_tel a users more rest)
]

IdsFit-append :
    (users : List Account) (a : Account) → IdsFit users → a.id < two32 → IdsFit (users ++ a ∷ [])
IdsFit-append [] a h k = (k, tt)
IdsFit-append (b ∷ users) a h k = (h.0, IdsFit-append users a h.1 k)

free_tel :
    (tel name : Bytes) (users : List Account)
    → register_result tel name users ≡ def_rigister_success
    → with_tel tel users ≡ []
free_tel tel name users h = elim (List-cases (with_tel tel users)) [
  | inl e ↦ e
  | inr (a, rest, e) ↦ absurd (ground arith)
]

login_first :
    (a : Account) (from : ℕ) (users more : List Account) (online : Map ℕ)
    → with_tel a.tel users ≡ []
    → login a.tel a.password from (users ++ a ∷ more) online ≡ put a.id from online
login_first a from users more online h =
    ground (arith, first_with_tel a users more h, bytes_eq_refl a.password)

-- A registration appends an account or none.
register_more :
    (id : ℕ) (tel name password : Bytes) (users : List Account)
    → id < two32
    → IdsFit users
    → (more : List Account) × (register id tel name password users ≡ users ++ more)
      × IdsFit (users ++ more)
register_more id tel name password users h fit =
    let a : Account = record { id = id; tel = tel; name = name; password = password } in
    elim (Bool-cases (register_result tel name users == def_rigister_success)) [
      | inl e ↦ (a ∷ [], rw e refl, IdsFit-append users a fit h)
      | inr e ↦ ([], rw (e, append-nil users) refl, subst IdsFit (sym (append-nil users)) fit)
    ]

module _ {d : MySqlDriver} (t : UserTable d) where
  handled :
      (r : Request) (len from : ℕ) (w v : World d)
      → deal_register_rq r.buf len from w ≡ done tt v
      → Registered t r.tel r.name r.password from w v
  handled r len from w v ran =
      let (u, run, registered) =
        registration_refines t r.buf len from r.tel r.name r.password r.reads_tel r.reads_name
          r.reads_password r.tel_fits r.name_fits r.password_fits w in
      subst (Registered t r.tel r.name r.password from w) (ap after (sym run ∙ ran)) registered

  -- What registrations make of a world: accounts come behind those that there are.
  record Grown (w v : World d) : Type 0 where
    more : List Account
    accounts : t.accounts v.db ≡ t.accounts w.db ++ more
    fit : IdsFit (t.accounts v.db)
    online : v.online ≡ w.online

  grown : {w v : World d} → Registrations w v → IdsFit (t.accounts w.db) → Grown w v
  grown {w} none_yet fit = record {
    more = [];
    accounts = sym (append-nil (t.accounts w.db));
    fit = fit;
    online = refl;
  }
  grown {w} (one_more {v} {u} r len from before ran) fit =
      let g = grown before fit in
      let done_so : Registered t r.tel r.name r.password from v u = handled r len from v u ran in
      let (more, same, fits) =
        register_more done_so.id r.tel r.name r.password (t.accounts v.db) done_so.id_is_32_bit
          g.fit in
      let added : t.accounts u.db ≡ t.accounts v.db ++ more = done_so.accounts ∙ same in
      record {
        more = g.more ++ more;
        accounts =
            added ∙ ap (λ l. l ++ more) g.accounts ∙ append_assoc (t.accounts w.db) g.more more;
        fit = subst IdsFit (sym added) fits;
        online = done_so.online ∙ g.online;
      }

  -- Whatever registrations the server handles, of texts of fewer than 20 bytes that hold no quote
  -- and no backslash, telephone numbers and names that were distinct among the accounts stay
  -- distinct.
  pub Registrations-Distinct :
      {w v : World d} → Registrations w v → Distinct (t.accounts w.db) → Distinct (t.accounts v.db)
  Registrations-Distinct none_yet h = h
  Registrations-Distinct (one_more {v} {u} r len from before ran) h =
      let done_so : Registered t r.tel r.name r.password from v u = handled r len from v u ran in
      subst Distinct (sym done_so.accounts) (
        register-Distinct done_so.id r.tel r.name r.password (t.accounts v.db)
          (Registrations-Distinct before h))

  -- Whoever is told that a registration succeeded can log in, whatever registrations come between:
  -- a login request with the telephone number and the password of the registration, from any
  -- client, enters its sender as online under the id of the new account. All the texts registered
  -- have fewer than 20 bytes and hold no quote and no backslash, and the ids at first have 32 bits.
  pub registered_can_log_in :
      (r : Request) (len from : ℕ) (buf : Bytes) (len' from' : ℕ) (w v u : World d)
      → deal_register_rq r.buf len from w ≡ done tt v
      → register_result r.tel r.name (t.accounts w.db) ≡ def_rigister_success
      → Registrations v u
      → c_str_at 4 buf ≡ some r.tel
      → c_str_at 16 buf ≡ some r.password
      → IdsFit (t.accounts w.db)
      → (id : ℕ) × (more : List Account) × (t.accounts u.db
          ≡ t.accounts w.db
            ++ record { id = id; tel = r.tel; name = r.name; password = r.password } ∷ more)
        × ((after (deal_login_rq buf len' from' u)).online ≡ put id from' w.online)
  registered_can_log_in r len from buf len' from' w v u ran success later tel password fit =
      let done_so : Registered t r.tel r.name r.password from w v = handled r len from w v ran in
      let a : Account = record {
        id = done_so.id;
        tel = r.tel;
        name = r.name;
        password = r.password;
      } in
      let users = t.accounts w.db in
      let added : t.accounts v.db ≡ users ++ a ∷ [] = done_so.accounts ∙ ground arith in
      let g =
        grown later (subst IdsFit (sym added) (IdsFit-append users a fit done_so.id_is_32_bit)) in
      let now : t.accounts u.db ≡ users ++ a ∷ g.more =
        g.accounts ∙ ap (λ l. l ++ g.more) added ∙ append_assoc users (a ∷ []) g.more in
      (
        done_so.id,
        g.more,
        now,
        login_refines t buf len' from' r.tel r.password tel password r.tel_fits u g.fit
            ∙ ap (λ l. login r.tel r.password from' l u.online) now
            ∙ login_first a from' users g.more u.online (free_tel r.tel r.name users success)
            ∙ ap (put done_so.id from') (g.online ∙ done_so.online),
      )
