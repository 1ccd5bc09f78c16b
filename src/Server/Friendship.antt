-- ===== src/Server/Friendship.antt =====
-- dealAddFriendRq and dealAddFriendRs of CKernel.cpp: what an accepted or a refused request leads to.
use instance_message.Base.{
  ℕ, ◌≡◌, ◌≢◌, refl, sym, ap, ◌∙◌, ◌⊎◌, inl, inr, Bool, true, false, none, some, ◌++◌, Bytes,
  lookup, int_at, arith, not, length-append, ascii, Bool-cases,
}
use instance_message.Text.{sprintf_s}
use instance_message.Text.Decimal.{format_d, length-format_d}
use instance_message.Protocol.{def_add_friend_success}
use instance_message.Protocol.Messages.{UserInfo, new_user_info}
use instance_message.Server.World.{
  MySqlDriver, World, Outcome, done, stopped, out_of_bounds, M, ◌>>=◌, ◌>>◌, or_stop, print_to,
  socket_of, stop, exit_called,
}
use instance_message.Server.MySql.{sql_update}
use instance_message.Server.Sql.{insert_friend}
use instance_message.Server.Kernel.Info.{
  get_info_by_id, send_infos, send_if_online, get_user_info_and_friend_info,
}
use instance_message.Server.Kernel.Friends.{store_friendship, deal_add_friend_rs}
use instance_message.Server.Frame.{
  after, or_stop-done, bind-done, update-done, Same, Keeps-get_info_by_id,
}

fits_insert : (a b : ℕ) → sprintf_s 2048 (insert_friend a b) ≡ some (insert_friend a b)
unfolding sprintf_s insert_friend
fits_insert a b = ground (
  arith,
  length-format_d a,
  length-format_d b,
  length-append (format_d a) (ascii "," ++ (format_d b ++ ascii ");")),
  length-append (format_d b) (ascii ");"),
)

-- How the database takes a statement: whether it fails, and the database that it leaves.
abbrev pub Runs : (d : MySqlDriver) → d.Db → Bytes → Bool → d.Db → Type 0
Runs d db sql failed db' = d.mysql_query db sql ≡ (db', failed)

module _ {d : MySqlDriver} where
  module _ (friend user : ℕ) (w : World d) where
    abbrev first : d.Db × Bool
    first = d.mysql_query w.db (insert_friend friend user)

    abbrev second : d.Db × Bool
    second = d.mysql_query first.0 (insert_friend user friend)

    print_first : print_to 2048 (insert_friend friend user) w ≡ done (insert_friend friend user) w
    print_first = rw (fits_insert friend user)

    print_second :
        (v : World d)
        → print_to 2048 (insert_friend user friend) v ≡ done (insert_friend user friend) v
    print_second v = rw (fits_insert user friend)

    store_fails :
        first.1 ≡ true → store_friendship friend user w ≡ done false (record w { db = first.0 })
    unfolding store_friendship
    store_fails f =
        bind-done (print_to 2048 (insert_friend friend user)) _ print_first
        ∙ bind-done (sql_update (insert_friend friend user)) _ (update-done _ true w f)

    back_run :
        (b : Bool)
        → first.1 ≡ false
        → second.1 ≡ b
        → store_friendship friend user w ≡ done (not b) (record w { db = second.0 })
    unfolding store_friendship
    back_run b f g =
        bind-done (print_to 2048 (insert_friend friend user)) _ print_first
        ∙ bind-done (sql_update (insert_friend friend user)) _ (update-done _ false w f)
        ∙ bind-done (print_to 2048 (insert_friend user friend)) _ (print_second _)
        ∙ update-done _ b (record w { db = first.0 }) g

  -- Both insertions done.
  pub stores_both :
      (friend user : ℕ) (w : World d) (db db' : d.Db)
      → Runs d w.db (insert_friend friend user) false db
      → Runs d db (insert_friend user friend) false db'
      → store_friendship friend user w ≡ done true (record w { db = db' })
  stores_both friend user w db db' r q =
      let again : second friend user w ≡ (db', false) =
        ap (λ (x : d.Db × Bool). d.mysql_query x.0 (insert_friend user friend)) r ∙ q in
      back_run friend user w false (ap (λ (x : d.Db × Bool). x.1) r)
        (ap (λ (x : d.Db × Bool). x.1) again)
      ∙ ap (λ (x : d.Db × Bool). done true (record w { db = x.0 })) again

  -- A friendship is stored by two insertions, one for each direction: both are done if and only if
  -- the result is true; otherwise the first failed and the second was not tried, or the second
  -- failed and the first direction stays.
  pub friendship_both_ways :
      (friend user : ℕ) (w v : World d) (stored : Bool)
      → store_friendship friend user w ≡ done stored v
      → (db : d.Db) × (((stored ≡ true)
            × Runs d w.db (insert_friend friend user) false db
            × Runs d db (insert_friend user friend) false v.db)
          ⊎ ((stored ≡ false) × Runs d w.db (insert_friend friend user) true v.db)
          ⊎ ((stored ≡ false)
              × Runs d w.db (insert_friend friend user) false db
              × Runs d db (insert_friend user friend) true v.db))
  friendship_both_ways friend user w v stored h = elim (Bool-cases (first friend user w).1) [
    | inl f ↦ (w.db, ground (arith, store_fails friend user w f))
    | inr f ↦ elim (Bool-cases (second friend user w).1) [
      | inl g ↦ ((first friend user w).0, ground (arith, back_run friend user w true f g))
      | inr g ↦ ((first friend user w).0, ground (arith, back_run friend user w false f g))
    ]
  ]

  asks_nobody :
      (id : ℕ) (w : World d) (o : Outcome d UserInfo)
      → Same w (after o)
      → lookup id w.online ≡ none
      → (u : World d)
      → ◌>>=◌
          (λ _. o)
          (λ info.
            ◌>>=◌
              (socket_of id)
              (λ s. elim s [ none ↦ stop exit_called | some k ↦ send_infos id info k ]))
          w
        ≢ done tt u
  asks_nobody id w (done a v) same off u h = ground arith
  asks_nobody id w (stopped r v) same off u h = cc

  offline_user_ends_server :
      (id : ℕ) (w u : World d)
      → lookup id w.online ≡ none
      → get_user_info_and_friend_info id w ≢ done tt u
  unfolding get_user_info_and_friend_info
  offline_user_ends_server id w u off =
      asks_nobody id w (get_info_by_id id new_user_info w)
        ((Keeps-get_info_by_id id new_user_info).same w) off u

  store_friendship-online :
      (friend user : ℕ) (w v : World d) (stored : Bool)
      → store_friendship friend user w ≡ done stored v
      → v.online ≡ w.online
  store_friendship-online friend user w v stored h = elim (Bool-cases (first friend user w).1) [
    | inl f ↦ ground (arith, store_fails friend user w f)
    | inr f ↦ elim (Bool-cases (second friend user w).1) [
      | inl g ↦ ground (arith, back_run friend user w true f g)
      | inr g ↦ ground (arith, back_run friend user w false f g)
    ]
  ]

  no_return :
      (o : Outcome d (Unit {0})) (k : M d (Unit {0})) (w u : World d)
      → ((t : World d) → o ≢ done tt t)
      → ◌>>=◌ (λ _. o) (λ _. k) w ≢ done tt u
  no_return (done a t) k w u never h = never t refl
  no_return (stopped r t) k w u never h = cc

  -- A reply that accepts a friendship with a user who is not online stops the server: once both
  -- directions are stored, the handler does not return, whoever sent the reply.
  pub accepted_absent_friend_stops_server :
      (buf : Bytes) (len from friend user : ℕ) (w v u : World d)
      → int_at 4 buf ≡ some def_add_friend_success
      → int_at 8 buf ≡ some friend
      → int_at 12 buf ≡ some user
      → store_friendship friend user w ≡ done true v
      → lookup friend w.online ≡ none
      → deal_add_friend_rs buf len from w ≢ done tt u
  unfolding deal_add_friend_rs
  accepted_absent_friend_stops_server buf len from friend user w v u r f s q off h =
      no_return (get_user_info_and_friend_info friend v) (send_if_online friend buf len) v u
        (λ t.
          offline_user_ends_server friend v t
            (ap (lookup friend) (store_friendship-online friend user w v true q) ∙ off))
        (sym ran ∙ h)
    where
      ran :
          deal_add_friend_rs buf len from w
          ≡ (get_user_info_and_friend_info friend >> send_if_online friend buf len) v
      ran =
          bind-done (or_stop out_of_bounds (int_at 4 buf)) _ (or_stop-done _ w r)
          ∙ bind-done (or_stop out_of_bounds (int_at 8 buf)) _ (or_stop-done _ w f)
          ∙ bind-done (or_stop out_of_bounds (int_at 12 buf)) _ (or_stop-done _ w s)
          ∙ bind-done (store_friendship friend user) _ q
