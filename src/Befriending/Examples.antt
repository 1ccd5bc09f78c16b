-- ===== src/Befriending/Examples.antt =====
-- Tom, user 1, and Ann, user 2, who are both online, become friends.
use mathlib.Core.List.Perm
use instance_message.Base.{
  ℕ, ◌≡◌, refl, ap, Bool, true, false, if◌then◌else◌, ◌==◌, some, List, [], ◌∷◌, Bytes, ascii,
  bytes_eq, map, lookup, arith,
}
use instance_message.Text.Decimal.{format_d}
use instance_message.Server.World.{MySqlDriver, Row, World}
use instance_message.Server.Sql.{select_info, select_friends, select_id, insert_friend}
use instance_message.Server.Accounts.{Answers}
use instance_message.Server.Friendship.{Runs}
use instance_message.Server.Kernel.Dispatch.{handler_table}
use instance_message.Announcing.{Directory, All, id_row}
use instance_message.Announcing.Examples.{
  info_row, of_tom, of_ann, name_of, feeling_of, icon_of, Stored, tom, ann, fits, of,
}
use instance_message.Client.State.{Client}
use instance_message.Client.Slots.{has_name}
use instance_message.Client.Examples.{plain, client, friend}
use instance_message.Befriending.{IsNew, Befriends, Friends, befriended}

-- The rows for the friends of a user, before both insertions and after.
abbrev friends_of : ℕ → ℕ → List ℕ
friends_of stage id = if stage == 2 then of id (2 ∷ []) (1 ∷ []) else []

abbrev answer : ℕ → Bytes → List Row
answer stage sql =
    if bytes_eq sql (select_info 1)
    then of_tom
    else if bytes_eq sql (select_info 2)
    then of_ann
    else if bytes_eq sql (select_friends 1)
    then map id_row (friends_of stage 1)
    else if bytes_eq sql (select_friends 2)
    then map id_row (friends_of stage 2)
    else id_row 2 ∷ []

-- How many insertions were done, and what the last query found.
abbrev two_users : MySqlDriver
two_users = record {
  Db = ℕ × List Row;
  mysql_query = λ db sql.
      if bytes_eq sql (insert_friend 1 2)
      then ((1, []), false)
      else if bytes_eq sql (insert_friend 2 1)
      then ((2, []), false)
      else ((db.0, answer (db.0) sql), false);
  mysql_store_result = λ db. (db, some (db.1));
}

info_answered :
    (db : ℕ × List Row) (id : ℕ)
    → Stored id
    → Answers two_users db
        (select_info id)
        (info_row (name_of id) (feeling_of id) (format_d (icon_of id)))
        (db.0, answer (db.0) (select_info id))
unfolding select_info select_friends insert_friend format_d
info_answered db _ tom = record { asked = (db.0, of_tom); query = refl; store = refl }
info_answered db _ ann = record { asked = (db.0, of_ann); query = refl; store = refl }

friends_answered :
    (stage : ℕ) (db : ℕ × List Row) (id : ℕ)
    → db.0 ≡ stage
    → Stored id
    → Answers two_users db
        (select_friends id)
        (map id_row (friends_of stage id))
        (db.0, answer (db.0) (select_friends id))
unfolding select_info select_friends insert_friend format_d
friends_answered stage db _ e tom = record {
  asked = (db.0, map id_row (friends_of (db.0) 1));
  query = refl;
  store =
      ap (λ n. ((db.0, map id_row (friends_of (db.0) 1)), some (map id_row (friends_of n 1)))) e;
}
friends_answered stage db _ e ann = record {
  asked = (db.0, map id_row (friends_of (db.0) 2));
  query = refl;
  store =
      ap (λ n. ((db.0, map id_row (friends_of (db.0) 2)), some (map id_row (friends_of n 2)))) e;
}

All-stored : (b : Bool) (id : ℕ) → Stored id → All Stored (if b then id ∷ [] else [])
All-stored true id h = (h, tt)
All-stored false id h = tt

friends_known : (stage id : ℕ) → Stored id → All Stored (friends_of stage id)
friends_known stage _ tom = All-stored (stage == 2) 2 ann
friends_known stage _ ann = All-stored (stage == 2) 1 tom

abbrev at_stage : ℕ → Directory two_users
at_stage stage = record {
  Holds = λ db. db.0 ≡ stage;
  Known = Stored;
  name = name_of;
  feeling = feeling_of;
  icon = icon_of;
  friends = friends_of stage;
  fits = fits;
  friends_known = friends_known stage;
  info_of = λ db id h known. (_, info_answered db id known, h);
  friends_of = λ db id h known. (_, friends_answered stage db id h known, h);
}

first_insertion : (db : ℕ × List Row) → Runs two_users db (insert_friend 1 2) false (1, [])
unfolding insert_friend format_d
first_insertion db = refl

second_insertion : (db : ℕ × List Row) → Runs two_users db (insert_friend 2 1) false (2, [])
unfolding insert_friend format_d
second_insertion db = refl

abbrev both : Befriends (at_stage 0) (at_stage 2) 1 2
both = record {
  inserts = λ db h. ((1, []), (2, []), first_insertion db, second_insertion (1, []), refl);
  forth = Perm.rfl;
  back = Perm.rfl;
}

abbrev server : World two_users
server = record {
  db = (0, []);
  online = (1, 10) ∷ (2, 20) ∷ [];
  arr_fun = handler_table;
  clients = (10, 10) ∷ (20, 20) ∷ [];
  trace = [];
}

-- The clients, Tom's without friends.
abbrev of_asker : Client
of_asker = record (client (friend 0)) { user_name = ascii "Tom"; forms = [] }

abbrev of_friend : Client
of_friend = record of_asker { user_id = 2; user_name = ascii "Ann" }

id_answered : Answers two_users (0, []) (select_id (ascii "Ann")) (id_row 2 ∷ []) (0, id_row 2 ∷ [])
unfolding select_info select_friends insert_friend select_id format_d
id_answered = record { asked = (0, id_row 2 ∷ []); query = refl; store = refl }

ann-IsNew : IsNew (ascii "Ann") of_asker
unfolding has_name
ann-IsNew = record { not_blank = refl; not_own = refl; not_friend = refl }

befriended_example :
    Friends
      (at_stage 0)
      (at_stage 2)
      plain
      (ascii "Ann")
      of_asker
      of_friend
      10
      20
      10
      20
      server
      server
      (0, id_row 2 ∷ [])
unfolding lookup
befriended_example =
    befriended (at_stage 0) (at_stage 2) plain (ascii "Ann") of_asker of_friend 10 20 10 20 20
      server server (0, id_row 2 ∷ []) ann-IsNew (omega arith) (omega arith) (omega arith)
      (omega arith) refl id_answered refl refl both refl refl tom refl
