-- ===== src/Announcing.antt =====
-- A user comes online: dealLoginRq and getUserInfoAndFriendInfo of IMServer/CKernel.cpp, and what
-- the clients of the user's friends show of it.
mod Spec
mod Told
mod Stale
pub mod Examples
pub use Spec.{Directory, Fits, All, id_row, Announced}
unfoldable pub use Spec.{Shows}
pub use Told.{Welcomed, welcomed}
use instance_message.Base.{
  ℕ, ◌<◌, ◌≡◌, refl, ◌∙◌, some, List, [], ◌∷◌, ◌++◌, Bytes, length, lookup, put, lookup-put_self,
  append_assoc, bytes_eq_refl,
}
use instance_message.Text.{c_str_at}
use instance_message.Text.Decimal.{format_d, stoi-format_d}
use instance_message.Protocol.{def_login_success}
use instance_message.Server.World.{MySqlDriver, World, Effect, done, c_str_from, print_to}
use instance_message.Server.MySql.{sql_select, push_rows, push_columns}
use instance_message.Server.Sql.{select_pass}
use instance_message.Server.Kernel.Account.{reply_login, log_in, check_password, deal_login_rq}
use instance_message.Server.Frame.{bind-done, or_stop-done}
use instance_message.Server.Chatting.{traced, sent_over}
use instance_message.Server.Sessions.{login_packet, replies_login, fits_pass}
use instance_message.Server.Registration.{select-Answers}
use instance_message.Server.Accounts.{Answers}

one_pass_row :
    (password id : Bytes)
    → push_rows 2 ((some password ∷ some id ∷ []) ∷ []) [] ≡ some (password ∷ id ∷ [])
unfolding push_rows push_columns
one_pass_row password id = refl

module _ {d : MySqlDriver} (t : Directory d) where
  -- The end of an accepted login request.
  record LoggedIn (w u : World d) (id from : ℕ) : Type 0 where
    me : Bytes
    es : List Effect
    online : u.online ≡ put id from w.online
    holds : t.Holds u.db
    shows : Shows t (put id from w.online) id me
    announced : Announced t (put id from w.online) w.clients id me (t.friends id) es
    traced_so :
        u.trace
        ≡ w.trace
          ++ (sent_over (login_packet def_login_success id) (lookup from w.clients)
              ++ (sent_over me (lookup from w.clients) ++ es))

  logged_in :
      (id from : ℕ) (w : World d)
      → t.Known id
      → t.Holds w.db
      → (u : World d) × (log_in id from w ≡ done tt u) × LoggedIn w u id from
  unfolding log_in
  logged_in id from w known h =
      let reply = sent_over (login_packet def_login_success id) (lookup from w.clients) in
      let w1 : World d = record (traced w reply) { online = put id from w.online } in
      let x = welcomed t id from w1 (lookup-put_self id from w.online) known h in
      (
        x.u,
        bind-done (reply_login def_login_success id from) _
              (replies_login def_login_success id from w)
            ∙ x.ran,
        record {
          me = x.me;
          es = x.es;
          online = x.online_kept;
          holds = x.holds;
          shows = x.shows;
          announced = x.announced;
          traced_so = x.traced_so ∙ append_assoc w.trace reply _;
        },
      )

  accepted :
      (password : Bytes) (id from : ℕ) (w : World d)
      → t.Known id
      → check_password password (password ∷ format_d id ∷ []) from w ≡ log_in id from w
  unfolding check_password
  accepted password id from w known =
      rw (stoi-format_d id ((t.fits id known).id_fits), bytes_eq_refl password) refl

  -- A login with the right password, over a database that holds the users and their friends: the
  -- handler returns, and the user is online at the client of the request. The client is sent the
  -- answer, then the user's own data, and then, for each friend in the order of the database, it is
  -- sent the friend's data, and the friend's client, if online and connected, the user's. The
  -- client of another user shows each of these packets as the stored name, signature and icon, and
  -- as online exactly if the user it is about is. The database still holds what it held.
  pub login_announced :
      (buf tel password : Bytes) (len id from : ℕ) (w : World d) (db' : d.Db)
      → c_str_at 4 buf ≡ some tel
      → c_str_at 16 buf ≡ some password
      → length tel < 20
      → Answers d w.db (select_pass tel) ((some password ∷ some (format_d id) ∷ []) ∷ []) db'
      → t.Holds db'
      → t.Known id
      → (u : World d) × (me : Bytes) × (es : List Effect) × (deal_login_rq buf len from w
          ≡ done tt u)
        × (u.online ≡ put id from w.online)
        × t.Holds u.db
        × Shows t (put id from w.online) id me
        × Announced t (put id from w.online) w.clients id me (t.friends id) es
        × (u.trace
            ≡ w.trace
              ++ (sent_over (login_packet def_login_success id) (lookup from w.clients)
                  ++ (sent_over me (lookup from w.clients) ++ es)))
  unfolding deal_login_rq
  login_announced buf tel password len id from w db' reads_tel reads_password fits answers h known =
      let w1 : World d = record w { db = db' } in
      let (u, ran, x) = logged_in id from w1 known h in
      (
        u,
        x.me,
        x.es,
        bind-done (c_str_from 4 buf) _ (or_stop-done _ w reads_tel)
            ∙ bind-done (c_str_from 16 buf) _ (or_stop-done _ w reads_password)
            ∙ bind-done (print_to 2048 (select_pass tel)) _ (or_stop-done _ w (fits_pass tel fits))
            ∙ bind-done (sql_select (select_pass tel) 2 []) _ (
                select-Answers (select_pass tel) 2 _ _ db' w answers
                  (one_pass_row password (format_d id)))
            ∙ accepted password id from w1 known
            ∙ ran,
        x.online,
        x.holds,
        x.shows,
        x.announced,
        x.traced_so,
      )
