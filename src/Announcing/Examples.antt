-- ===== src/Announcing/Examples.antt =====
-- Tom, user 1, logs in while his friend Ann, user 2, is online.
use instance_message.Base.{
  ℕ, ◌≡◌, refl, true, false, if◌then◌else◌, some, List, [], ◌∷◌, ◌++◌, Bytes, ascii, bytes_eq,
  replicate, map, lookup, put, ◌==◌, int_bytes, arith,
}
use instance_message.Text.{c_str, c_str_at}
use instance_message.Text.Decimal.{format_d}
use instance_message.Protocol.{def_login_success}
use instance_message.Protocol.Messages.{new_login_rq, encode_login_rq}
use instance_message.Server.World.{MySqlDriver, Row, World, Effect, done}
use instance_message.Server.Sql.{select_info, select_friends, select_pass}
use instance_message.Server.Kernel.Account.{deal_login_rq}
use instance_message.Server.Accounts.{Answers}
use instance_message.Server.Chatting.{sent_over}
use instance_message.Server.Sessions.{login_packet}
use instance_message.Protocol.Messages.{UserInfo, new_user_info, encode_user_info}
use instance_message.Server.Kernel.Info.{status_of, send_friend_infos}
use instance_message.Server.Chatting.{traced}
use instance_message.Client.State.{Client}
use instance_message.Client.Received.{slot_transmit_data}
use instance_message.Client.Examples.{plain, friend, client}
use instance_message.Profile.{listed, Blank}
use instance_message.Announcing.Stale.{round_sends, failed_query_shows_previous_friend}
use instance_message.Announcing.{Directory, Fits, All, id_row, Shows, Announced, login_announced}

abbrev pub info_row : (name feeling icon : Bytes) → List Row
info_row name feeling icon = (some name ∷ some feeling ∷ some icon ∷ []) ∷ []

abbrev pub of_tom : List Row
of_tom = info_row (ascii "Tom") (ascii "busy") (format_d 4)

abbrev pub of_ann : List Row
of_ann = info_row (ascii "Ann") (ascii "away") (format_d 7)

abbrev answer : Bytes → List Row
answer sql =
    if bytes_eq sql (select_info 1)
    then of_tom
    else if bytes_eq sql (select_info 2)
    then of_ann
    else if bytes_eq sql (select_friends 1)
    then id_row 2 ∷ []
    else if bytes_eq sql (select_friends 2)
    then id_row 1 ∷ []
    else (some (ascii "secret") ∷ some (format_d 1) ∷ []) ∷ []

-- A connection with what the last query found.
abbrev two_users : MySqlDriver
two_users = record {
  Db = List Row;
  mysql_query = λ db sql. (answer sql, false);
  mysql_store_result = λ db. (db, some db);
}

pub data Stored : ℕ → Type 0 where
  tom : Stored 1
  ann : Stored 2

abbrev pub of : {A : Type 0} → ℕ → A → A → A
of id a b = if id == 1 then a else b

abbrev pub name_of : ℕ → Bytes
name_of id = of id (ascii "Tom") (ascii "Ann")

abbrev pub feeling_of : ℕ → Bytes
feeling_of id = of id (ascii "busy") (ascii "away")

abbrev pub icon_of : ℕ → ℕ
icon_of id = of id 4 7

abbrev friends_of : ℕ → List ℕ
friends_of id = of id (2 ∷ []) (1 ∷ [])

pub fits : (id : ℕ) → Stored id → Fits id (icon_of id) (name_of id) (feeling_of id)
fits _ tom = record {
  id_fits = omega arith;
  icon_fits = omega arith;
  name_fits = omega arith;
  feeling_fits = omega arith;
  name_clean = omega arith;
  feeling_clean = omega arith;
}
fits _ ann = record {
  id_fits = omega arith;
  icon_fits = omega arith;
  name_fits = omega arith;
  feeling_fits = omega arith;
  name_clean = omega arith;
  feeling_clean = omega arith;
}

friends_known : (id : ℕ) → Stored id → All Stored (friends_of id)
friends_known _ tom = (ann, tt)
friends_known _ ann = (tom, tt)

info_answered :
    (db : List Row) (id : ℕ)
    → Stored id
    → Answers two_users db
        (select_info id)
        (info_row (name_of id) (feeling_of id) (format_d (icon_of id)))
        (answer (select_info id))
unfolding select_info select_friends format_d
info_answered db _ tom = record { asked = of_tom; query = refl; store = refl }
info_answered db _ ann = record { asked = of_ann; query = refl; store = refl }

friends_answered :
    (db : List Row) (id : ℕ)
    → Stored id
    → Answers two_users db
        (select_friends id)
        (map id_row (friends_of id))
        (answer (select_friends id))
unfolding select_info select_friends format_d
friends_answered db _ tom = record { asked = id_row 2 ∷ []; query = refl; store = refl }
friends_answered db _ ann = record { asked = id_row 1 ∷ []; query = refl; store = refl }

abbrev directory : Directory two_users
directory = record {
  Holds = λ db. Unit {0};
  Known = Stored;
  name = name_of;
  feeling = feeling_of;
  icon = icon_of;
  friends = friends_of;
  fits = fits;
  friends_known = friends_known;
  info_of = λ db id h known. (_, info_answered db id known, tt);
  friends_of = λ db id h known. (_, friends_answered db id known, tt);
}

-- Ann is online through client 20, and client 10 is connected.
abbrev server : World two_users
server = record {
  db = [];
  online = (2, 20) ∷ [];
  arr_fun = [];
  clients = (10, 10) ∷ (20, 20) ∷ [];
  trace = [];
}

abbrev tom_logs_in : Bytes
tom_logs_in = encode_login_rq (record new_login_rq {
  tel = ascii "13900000000" ++ (0 ∷ []);
  password = ascii "secret" ++ replicate 14 0;
})

texts :
    (c_str_at 4 tom_logs_in ≡ some (ascii "13900000000"))
    × (c_str_at 16 tom_logs_in ≡ some (ascii "secret"))
unfolding c_str encode_login_rq int_bytes
texts = (refl, refl)

abbrev pass_rows : List Row
pass_rows = (some (ascii "secret") ∷ some (format_d 1) ∷ []) ∷ []

password_answered : Answers two_users [] (select_pass (ascii "13900000000")) pass_rows pass_rows
unfolding select_info select_friends select_pass format_d
password_answered = record { asked = pass_rows; query = refl; store = refl }

login_announced_example :
    let online = put 1 10 server.online in
    (u : World two_users) × (me : Bytes) × (es : List Effect) × (deal_login_rq tom_logs_in 36 10
        server
      ≡ done tt u)
    × (u.online ≡ online)
    × directory.Holds u.db
    × Shows directory online 1 me
    × Announced directory online server.clients 1 me (2 ∷ []) es
    × (u.trace
        ≡ server.trace
          ++ (sent_over (login_packet def_login_success 1) (lookup 10 server.clients)
              ++ (sent_over me (lookup 10 server.clients) ++ es)))
login_announced_example =
    login_announced directory tom_logs_in (ascii "13900000000") (ascii "secret") 36 1 10 server
      pass_rows texts.0 texts.1 (omega arith) password_answered tt tom

-- The query for Ann fails.
abbrev only_tom : MySqlDriver
only_tom = record {
  Db = List Row;
  mysql_query = λ db sql. if bytes_eq sql (select_info 1) then (of_tom, false) else (db, true);
  mysql_store_result = λ db. (db, some db);
}

abbrev with_failure : World only_tom
with_failure = record {
  db = [];
  online = (1, 10) ∷ (3, 30) ∷ [];
  arr_fun = [];
  clients = (10, 10) ∷ (30, 30) ∷ [];
  trace = [];
}

tom_answered :
    Answers only_tom []
      (select_info 1)
      ((some (ascii "Tom") ∷ some (ascii "busy") ∷ some (format_d 4) ∷ []) ∷ [])
      of_tom
unfolding select_info format_d
tom_answered = record { asked = of_tom; query = refl; store = refl }

ann_fails : (only_tom.mysql_query of_tom (select_info 2)).1 ≡ true
unfolding select_info format_d
ann_fails = refl

new-Blank : Blank new_user_info
new-Blank = record { typed = refl; name_size = refl; feeling_size = refl }

abbrev user_three : Client
user_three = record (client (friend 0)) { user_id = 3 }

-- The struct after the query for Tom, and after the one for Ann.
failed_query_shows_previous_friend_example :
    let me = user_three in
    let after : World only_tom = record with_failure {
      db = (only_tom.mysql_query of_tom (select_info 2)).0;
    } in
    let sends = round_sends 3 new_user_info with_failure in
    (m n : UserInfo) × (send_friend_infos 3 new_user_info new_user_info
        (map format_d (1 ∷ 2 ∷ []))
        with_failure
      ≡ send_friend_infos 3 new_user_info n
          (map format_d [])
          (traced after (sends m 1 ++ sends n 2)))
    × (slot_transmit_data plain true (encode_user_info m) me
        ≡ some (
            listed plain 1
              (ascii "Tom")
              (ascii "busy")
              4
              (status_of (lookup 1 with_failure.online))
              me))
    × (slot_transmit_data plain true (encode_user_info n) me
        ≡ some (
            listed plain 2
              (ascii "Tom")
              (ascii "busy")
              4
              (status_of (lookup 2 with_failure.online))
              me))
failed_query_shows_previous_friend_example =
    failed_query_shows_previous_friend plain true 3 1 2 4 new_user_info new_user_info (ascii "Tom")
      (ascii "busy") [] with_failure of_tom user_three new-Blank new-Blank (omega arith)
      (omega arith) (omega arith) (omega arith) (omega arith) (omega arith) (omega arith)
      tom_answered ann_fails (λ e. absurd (ground arith)) (λ e. absurd (ground arith))
