-- ===== src/Server/Login.antt =====
-- dealLoginRq of CKernel.cpp: who is entered as online.
use instance_message.Base.{
  ℕ, ◌≡◌, refl, ◌⊎◌, inl, inr, Bool, true, false, some, List, [], ◌∷◌, Bytes, Map, put, bytes_eq,
  bytes_eq_sound, Bool-cases, Option-cases, ◌∙◌, ap, sym, if◌then◌else◌,
}
use instance_message.Text.{c_str_at, sprintf_s-cases}
use instance_message.Text.Decimal.{stoi}
use instance_message.Protocol.{def_login_success}
use instance_message.Server.World.{MySqlDriver, World, Outcome, done, stopped, pure, ◌>>=◌, ◌>>◌}
use instance_message.Server.MySql.{sql_select}
use instance_message.Server.Sql.{select_pass}
use instance_message.Server.Kernel.Account.{
  reply_login, set_online, log_in, check_password, deal_login_rq,
}
use instance_message.Server.Kernel.Info.{get_user_info_and_friend_info}
use instance_message.Server.Frame.{
  after, Same, Keeps, Keeps-send_data, Keeps-select, Keeps-get_user_info_and_friend_info,
  after-cases,
}

-- The map of online users is the old one, or the old one with the user whose stored password and
-- id the list begins with, if that password is the given one.
abbrev pub Entered : Bytes → List Bytes → ℕ → Map ℕ → Map ℕ → Type 0
Entered password l from old new =
    (new ≡ old)
    ⊎ ((id_text : Bytes) × (rest : List Bytes) × (id : ℕ) × (l ≡ password ∷ id_text ∷ rest)
        × (stoi id_text ≡ some id)
        × (new ≡ put id from old))

module _ {d : MySqlDriver} where
  Keeps-reply_login : (result id from : ℕ) → Keeps (reply_login {d = d} result id from)
  unfolding reply_login
  Keeps-reply_login result id from = Keeps-send_data _ _ from

  log_in-online :
      (id from : ℕ) (w : World d)
      → let v = after (log_in id from w) in
        (v.online ≡ w.online) ⊎ (v.online ≡ put id from w.online)
  unfolding log_in
  log_in-online id from w =
      after-cases (λ v. (v.online ≡ w.online) ⊎ (v.online ≡ put id from w.online))
        (reply_login def_login_success id from)
        (λ _. set_online id from >> get_user_info_and_friend_info id) w
        (λ r v e. inl (ap (λ o. (after o).online) (sym e) ∙ same.online))
        (λ a v e. inr (entered v (ap (λ o. (after o).online) (sym e) ∙ same.online)))
    where
      same : Same w (after (reply_login def_login_success id from w))
      same = (Keeps-reply_login def_login_success id from).same w

      entered :
          (v : World d)
          → v.online ≡ w.online
          → (after (
              get_user_info_and_friend_info id (record v { online = put id from v.online }))).online
            ≡ put id from w.online
      entered v e =
          ((Keeps-get_user_info_and_friend_info id).same
            (record v { online = put id from v.online })).online
          ∙ ap (put id from) e

  check_password-Entered :
      (password : Bytes) (l : List Bytes) (from : ℕ) (w : World d)
      → Entered password l from w.online (after (check_password password l from w)).online
  unfolding check_password
  check_password-Entered password [] from w = inl ((Keeps-reply_login _ _ from).same w).online
  check_password-Entered password (a ∷ []) from w = inl refl
  check_password-Entered password (a ∷ id_text ∷ rest) from w = elim (Option-cases (stoi id_text)) [
    | inl e ↦ inl (rw e)
    | inr (id, e) ↦ elim (Bool-cases (bytes_eq a password)) [
      | inl same ↦
          rw (e, same)
            (entered id_text rest id e (bytes_eq_sound a password same) (log_in-online id from w))
      | inr other ↦ inl (rw (e, other) ((Keeps-reply_login _ _ from).same w).online)
    ]
  ]
    where
      entered :
          (id_text : Bytes) (rest : List Bytes) (id : ℕ)
          → stoi id_text ≡ some id
          → a ≡ password
          → ((after (log_in id from w)).online ≡ w.online)
            ⊎ ((after (log_in id from w)).online ≡ put id from w.online)
          → Entered password (a ∷ id_text ∷ rest) from w.online (after (log_in id from w)).online
      entered t r k e s (inl p) = inl p
      entered t r k e s (inr p) = inr (t, r, k, ap (λ b. b ∷ t ∷ r) s, e, p)

  -- What a login that enters a user rests on.
  pub record Credentials (data_buf : Bytes) (from : ℕ) (w : World d) (new : Map ℕ) : Type 0 where
    pub tel : Bytes
    pub password : Bytes
    pub id_text : Bytes
    pub rest : List Bytes
    pub id : ℕ
    pub queried : World d
    pub sent_tel : c_str_at 4 data_buf ≡ some tel
    pub sent_password : c_str_at 16 data_buf ≡ some password
    pub stored :
        sql_select (select_pass tel) 2 [] w ≡ done (true, password ∷ id_text ∷ rest) queried
    pub stored_id : stoi id_text ≡ some id
    pub entered : new ≡ put id from w.online

  answered :
      (data_buf tel password : Bytes) (from : ℕ) (w : World d) (o : Outcome d (Bool × List Bytes))
      → c_str_at 4 data_buf ≡ some tel
      → c_str_at 16 data_buf ≡ some password
      → sql_select (select_pass tel) 2 [] w ≡ o
      → Same w (after o)
      → let new =
          (after (
            ◌>>=◌
              (λ _. o)
              (λ r. if r.0 then check_password password r.1 from else pure tt)
              w)).online in
        (new ≡ w.online) ⊎ Credentials data_buf from w new
  answered buf tel password from w (stopped r v) e f q s = inl s.online
  answered buf tel password from w (done (false, l) v) e f q s = inl s.online
  answered buf tel password from w (done (true, l) v) e f q s =
      credentials (check_password-Entered password l from v)
    where
      credentials :
          Entered password l from v.online (after (check_password password l from v)).online
          → ((after (check_password password l from v)).online ≡ w.online)
            ⊎ Credentials buf from w (after (check_password password l from v)).online
      credentials (inl p) = inl (p ∙ s.online)
      credentials (inr (t, r, k, a, b, c)) = inr (record {
        tel = tel;
        password = password;
        id_text = t;
        rest = r;
        id = k;
        queried = v;
        sent_tel = e;
        sent_password = f;
        stored = q ∙ ap (λ x. done (true, x) v) a;
        stored_id = b;
        entered = c ∙ ap (put k from) s.online;
      })

  -- However a login request ends, the map of online users is unchanged, or it has one new entry: the
  -- client that sent the request, under the id that the database holds for the telephone number of
  -- the request beside a password equal to the one of the request.
  pub login_needs_password :
      (data_buf : Bytes) (len from : ℕ) (w : World d)
      → let new = (after (deal_login_rq data_buf len from w)).online in
        (new ≡ w.online) ⊎ Credentials data_buf from w new
  unfolding deal_login_rq
  login_needs_password buf len from w = elim (Option-cases (c_str_at 4 buf)) [
    | inl e ↦ inl (rw e)
    | inr (tel, e) ↦ elim (Option-cases (c_str_at 16 buf)) [
      | inl f ↦ inl (rw (e, f))
      | inr (password, f) ↦ elim (sprintf_s-cases 2048 (select_pass tel)) [
        | inl g ↦ inl (rw (e, f, g))
        | inr g ↦
            rw (e, f, g)
              (answered buf tel password from w (sql_select (select_pass tel) 2 [] w) e f refl
                ((Keeps-select (select_pass tel) 2 []).same w))
      ]
    ]
  ]
