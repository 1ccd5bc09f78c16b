-- ===== src/Announcing/Told.antt =====
-- getUserInfoAndFriendInfo of IMServer/CKernel.cpp over a database that holds users with their
-- friends.
use instance_message.Base.{
  ℕ, ◌≡◌, refl, sym, ap, subst, ◌∙◌, none, some, List, [], ◌∷◌, ◌++◌, Bytes, map, length,
  length-append, append_assoc, append-nil, lookup, int_bytes, arith,
}
use instance_message.Text.{sprintf_s}
use instance_message.Text.Decimal.{format_d, stoi-format_d, length-format_d, stoi}
use instance_message.Protocol.Messages.{UserInfo, new_user_info, encode_user_info}
use instance_message.Server.World.{
  MySqlDriver, World, Effect, M, done, or_stop, print_to, send_data, uncaught_exception,
  exit_called, stop,
}
use instance_message.Server.MySql.{sql_select, push_rows, push_columns}
use instance_message.Server.Sql.{select_friends}
use instance_message.Server.Kernel.Info.{
  get_info_by_id, send_if_online, send_friend_infos, send_infos, get_user_info_and_friend_info,
}
use instance_message.Server.Frame.{bind-done, or_stop-done}
use instance_message.Server.Chatting.{traced, sent_over, send_data-delivery}
use instance_message.Server.Leaving.{delivery, send_if_online-delivery}
use instance_message.Server.Registration.{select-Answers}
use instance_message.Client.Received.{slot_transmit_data}
use instance_message.Profile.{listed, Blank, Told, answered, small_status, shown}
use instance_message.Announcing.Spec.{Directory, Fits, All, id_row, Shows, Announced}

fits_friends : (id : ℕ) → sprintf_s 8192 (select_friends id) ≡ some (select_friends id)
unfolding sprintf_s select_friends
fits_friends id = ground (arith, length-format_d id, length-append (format_d id) (b';' ∷ []))

push_id_rows :
    (ids : List ℕ) (lst : List Bytes)
    → push_rows 1 (map id_row ids) lst ≡ some (lst ++ map format_d ids)
unfolding push_rows push_columns
push_id_rows [] lst = ap some (sym (append-nil lst))
push_id_rows (id ∷ ids) lst =
    push_id_rows ids (lst ++ format_d id ∷ [])
    ∙ ap some (append_assoc lst (format_d id ∷ []) (map format_d ids))

user_info_size : (m : UserInfo) → Blank m → length (encode_user_info m) ≡ 136
unfolding encode_user_info int_bytes
user_info_size m b = omega (arith, b.name_size, b.feeling_size, length-append m.name m.feeling)

module _ {d : MySqlDriver} where
  pub sent_struct :
      (to : ℕ) (m : UserInfo) (w : World d)
      → Blank m
      → send_if_online to (encode_user_info m) 136 w
        ≡ done tt (traced w (delivery w.online w.clients (encode_user_info m) to))
  sent_struct to m w b =
      subst
        (λ n.
          send_if_online to (encode_user_info m) n w
          ≡ done tt (traced w (delivery w.online w.clients (encode_user_info m) to)))
        (user_info_size m b) (send_if_online-delivery to (encode_user_info m) w)

module _ {d : MySqlDriver} (t : Directory d) where
  -- The struct of a user, filled from the directory, with the world after.
  record Asked (id : ℕ) (info : UserInfo) (w : World d) : Type 0 where
    m : UserInfo
    db' : d.Db
    holds : t.Holds db'
    blank : Blank m
    shows : Shows t w.online id (encode_user_info m)
    ran : get_info_by_id id info w ≡ done m (record w { db = db' })

  told-Shows :
      (id : ℕ) (info : UserInfo) (w : World d) (db' : d.Db)
      → Fits id (t.icon id) (t.name id) (t.feeling id)
      → (x : Told id (t.icon id) (t.name id) (t.feeling id) db' info w)
      → Shows t w.online id (encode_user_info x.m)
  told-Shows id info w db' f x codec answer c ne =
      subst
        (λ (y : ℕ × ℕ × ℕ).
          slot_transmit_data codec answer (encode_user_info x.m) c
          ≡ some (listed codec y.0 (t.name id) (t.feeling id) y.1 y.2 c))
        (λ i. (x.number i, x.icon_same i, x.status i))
        (shown codec answer x.m (t.name id) (t.feeling id) c x.profile (rw (x.number) (f.id_fits))
          (rw (x.status) (small_status (lookup id w.online))) (λ e. ne (sym (x.number) ∙ e)))

  asks :
      (id : ℕ) (info : UserInfo) (w : World d)
      → Blank info
      → t.Known id
      → t.Holds w.db
      → Asked id info w
  asks id info w b known h =
      let f = t.fits id known in
      let (db', answers, after) = t.info_of w.db id h known in
      let x =
        answered id (t.icon id) (t.name id) (t.feeling id) db' info w b f.icon_fits f.name_fits
          f.feeling_fits f.name_clean f.feeling_clean answers in
      record {
        m = x.m;
        db' = db';
        holds = after;
        blank = record {
          typed = x.profile.typed;
          name_size = x.profile.name_size;
          feeling_size = x.profile.feeling_size;
        };
        shows = told-Shows id info w db' f x;
        ran = x.ran;
      }

  -- What a loop over friends comes to.
  pub record SentAll (run : M d (Unit {0})) (user : ℕ) (me : Bytes) (ids : List ℕ) (w : World d)
      : Type 0 where
    pub u : World d
    pub es : List Effect
    pub announced : Announced t w.online w.clients user me ids es
    pub ran : run w ≡ done tt u
    pub traced_so : u.trace ≡ w.trace ++ es
    pub online_kept : u.online ≡ w.online
    pub clients_kept : u.clients ≡ w.clients
    pub holds : t.Holds u.db

  friends_told :
      (user : ℕ) (me previous : UserInfo) (ids : List ℕ) (w : World d)
      → Blank me
      → Blank previous
      → All t.Known ids
      → t.Holds w.db
      → SentAll
          (send_friend_infos user me previous (map format_d ids))
          user
          (encode_user_info me)
          ids
          w
  unfolding send_friend_infos
  friends_told user me previous [] w b p k h = record {
    u = w;
    es = [];
    announced = Announced.nobody;
    ran = refl;
    traced_so = sym (append-nil w.trace);
    online_kept = refl;
    clients_kept = refl;
    holds = h;
  }
  friends_told user me previous (id ∷ ids) w b p k h =
      let a = asks id previous w p k.0 h in
      let w1 : World d = record w { db = a.db' } in
      let one = delivery w.online w.clients (encode_user_info a.m) user in
      let two = delivery w.online w.clients (encode_user_info me) id in
      let w2 = traced w1 one in
      let rest = friends_told user me a.m ids (traced w2 two) b a.blank k.1 a.holds in
      record {
        u = rest.u;
        es = one ++ (two ++ rest.es);
        announced = Announced.friend id (encode_user_info a.m) a.shows rest.announced;
        ran =
            bind-done (or_stop uncaught_exception (stoi (format_d id))) _
              (or_stop-done _ w (stoi-format_d id ((t.fits id k.0).id_fits)))
            ∙ bind-done (get_info_by_id id previous) _ a.ran
            ∙ bind-done (send_if_online user (encode_user_info a.m) 136) _
                (sent_struct user a.m w1 a.blank)
            ∙ bind-done (send_if_online id (encode_user_info me) 136) _ (sent_struct id me w2 b)
            ∙ rest.ran;
        traced_so =
            rest.traced_so
            ∙ append_assoc (w.trace ++ one) two rest.es
            ∙ append_assoc w.trace one (two ++ rest.es);
        online_kept = rest.online_kept;
        clients_kept = rest.clients_kept;
        holds = rest.holds;
      }

  -- What a user is sent, and causes, from a client.
  pub record Welcomed (run : M d (Unit {0})) (user : ℕ) (socket : ℕ) (w : World d) : Type 0 where
    pub u : World d
    pub me : Bytes
    pub es : List Effect
    pub shows : Shows t w.online user me
    pub announced : Announced t w.online w.clients user me (t.friends user) es
    pub ran : run w ≡ done tt u
    pub traced_so : u.trace ≡ w.trace ++ (sent_over me (lookup socket w.clients) ++ es)
    pub online_kept : u.online ≡ w.online
    pub clients_kept : u.clients ≡ w.clients
    pub holds : t.Holds u.db

  sent_own :
      (socket : ℕ) (m : UserInfo) (w : World d)
      → Blank m
      → send_data (encode_user_info m) 136 socket w
        ≡ done tt (traced w (sent_over (encode_user_info m) (lookup socket w.clients)))
  sent_own socket m w b =
      subst
        (λ n.
          send_data (encode_user_info m) n socket w
          ≡ done tt (traced w (sent_over (encode_user_info m) (lookup socket w.clients))))
        (user_info_size m b) (send_data-delivery socket (encode_user_info m) w)

  infos_told :
      (user socket : ℕ) (m : UserInfo) (w : World d)
      → Blank m
      → Shows t w.online user (encode_user_info m)
      → t.Known user
      → t.Holds w.db
      → Welcomed (send_infos user m socket) user socket w
  unfolding send_infos
  infos_told user socket m w b shows known h =
      let own = sent_over (encode_user_info m) (lookup socket w.clients) in
      let w1 : World d = traced w own in
      let (db', answers, after) = t.friends_of w.db user h known in
      let blank : Blank new_user_info = record {
        typed = refl;
        name_size = refl;
        feeling_size = refl;
      } in
      let rest =
        friends_told user m new_user_info (t.friends user) (record w1 { db = db' }) b blank
          (t.friends_known user known) after in
      record {
        u = rest.u;
        me = encode_user_info m;
        es = rest.es;
        shows = shows;
        announced = rest.announced;
        ran =
            bind-done (send_data (encode_user_info m) 136 socket) _ (sent_own socket m w b)
            ∙ bind-done (print_to 8192 (select_friends user)) _
                (or_stop-done _ w1 (fits_friends user))
            ∙ bind-done (sql_select (select_friends user) 1 []) _ (
                select-Answers (select_friends user) 1 _ _ db' w1 answers
                  (push_id_rows (t.friends user) []))
            ∙ rest.ran;
        traced_so = rest.traced_so ∙ append_assoc w.trace own rest.es;
        online_kept = rest.online_kept;
        clients_kept = rest.clients_kept;
        holds = rest.holds;
      }

  pub welcomed :
      (user socket : ℕ) (w : World d)
      → lookup user w.online ≡ some socket
      → t.Known user
      → t.Holds w.db
      → Welcomed (get_user_info_and_friend_info user) user socket w
  unfolding get_user_info_and_friend_info
  welcomed user socket w on known h =
      let blank : Blank new_user_info = record {
        typed = refl;
        name_size = refl;
        feeling_size = refl;
      } in
      let a = asks user new_user_info w blank known h in
      let w1 : World d = record w { db = a.db' } in
      let i = infos_told user socket a.m w1 a.blank a.shows known a.holds in
      record {
        u = i.u;
        me = i.me;
        es = i.es;
        shows = i.shows;
        announced = i.announced;
        ran =
            bind-done (get_info_by_id user new_user_info) _ a.ran
            ∙ ap
                (λ o.
                  (elim o as (λ _. M d (Unit {0})) [
                    | none ↦ stop exit_called
                    | some s ↦ send_infos user a.m s
                  ])
                    w1)
                on
            ∙ i.ran;
        traced_so = i.traced_so;
        online_kept = i.online_kept;
        clients_kept = i.clients_kept;
        holds = i.holds;
      }
