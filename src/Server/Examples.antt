-- ===== src/Server/Examples.antt =====
-- The theorems on CKernel.cpp at one server: users 1 and 2 are online as clients 10 and 20, over the
-- sockets 110 and 120, and user 3 is online as client 30, whose connection is closed. The database
-- hands out results that are given beforehand, and takes every statement.
use instance_message.Base.{
  ℕ, ◌<◌, ◌≡◌, ◌≢◌, refl, ◌⊎◌, true, false, Option, none, some, List, [], ◌∷◌, ◌++◌, Bytes, arith,
  int_at, int_bytes, length, lookup, ascii, replicate, if◌then◌else◌, ◌==◌,
}
use instance_message.Text.{sprintf_s}
use instance_message.Text.Decimal.{stoi, format_d}
use instance_message.Protocol.{def_chat_rq, def_add_friend_success}
use instance_message.Protocol.Messages.{
  new_login_rq, encode_login_rq, new_chat_rq, encode_chat_rq, new_offline_rq, encode_offline_rq,
  new_add_friend_rs, encode_add_friend_rs,
}
use instance_message.Server.World.{MySqlDriver, Row, World, done}
use instance_message.Server.MySql.{sql_select, select_my_sql, update_my_sql}
use instance_message.Server.Sql.{select_friends_offline, insert_friend}
use instance_message.Server.Kernel.Account.{deal_login_rq}
use instance_message.Server.Kernel.Chat.{deal_chat_rq, deal_offline_rq}
use instance_message.Server.Kernel.Friends.{store_friendship, deal_add_friend_rs}
use instance_message.Server.Kernel.Dispatch.{handler_table}
use instance_message.Server.Frame.{after}
use instance_message.Server.Login.{Credentials, login_needs_password}
use instance_message.Server.Chatting.{traced, chat_sends, chat_delivered_or_answered}
use instance_message.Server.Leaving.{deliveries, closing, offline_announced}
use instance_message.Server.Friendship.{
  Runs, friendship_both_ways, accepted_absent_friend_stops_server,
}

abbrev next_result : List (List Row) → List (List Row) × Option (List Row)
next_result [] = ([], none)
next_result (rows ∷ later) = (later, some rows)

abbrev pub canned : MySqlDriver
canned = record {
  Db = List (List Row);
  mysql_query = λ db sql. (db, false);
  mysql_store_result = next_result;
}

abbrev pub server : List (List Row) → World canned
server db = record {
  db = db;
  online = (1, 10) ∷ (2, 20) ∷ (3, 30) ∷ [];
  arr_fun = handler_table;
  clients = (10, 110) ∷ (20, 120) ∷ [];
  trace = [];
}

abbrev login_packet : Bytes
login_packet = encode_login_rq (record new_login_rq {
  tel = ascii "13800000000" ++ (0 ∷ []);
  password = ascii "secret" ++ replicate 14 0;
})

abbrev account : World canned
account = server (((some (ascii "secret") ∷ some (ascii "7") ∷ []) ∷ []) ∷ [])

login_needs_password_example :
    let new = (after (deal_login_rq login_packet 36 20 account)).online in
    (new ≡ account.online) ⊎ Credentials login_packet 20 account new
login_needs_password_example = login_needs_password login_packet 36 20 account

abbrev chat_packet : ℕ → Bytes
chat_packet friend =
    encode_chat_rq
      (record new_chat_rq { user_id = 1; friend_id = friend; content = ascii "hi" ++ (0 ∷ []) })

chat_friend : (friend : ℕ) → friend < 256 → int_at 8 (chat_packet friend) ≡ some friend
unfolding int_at encode_chat_rq int_bytes
chat_friend friend h = ground arith

chat_type : int_at 0 (chat_packet 2) ≡ some def_chat_rq
unfolding int_at encode_chat_rq int_bytes
chat_type = refl

chat_delivered_or_answered_example :
    deal_chat_rq (chat_packet 2) (length (chat_packet 2)) 10 (server [])
    ≡ done tt (
        traced
          (server [])
          (chat_sends (server []).clients (chat_packet 2) 2 10 (lookup 2 (server []).online)))
chat_delivered_or_answered_example =
    chat_delivered_or_answered (chat_packet 2) 10 2 (server []) (chat_friend 2 (omega arith))

online_as_thirty : lookup 3 (server []).online ≡ some 30
unfolding lookup
online_as_thirty = refl

abbrev offline_packet : Bytes
offline_packet = encode_offline_rq (record new_offline_rq { user_id = 1 })

abbrev befriended : World canned
befriended = server (((some (ascii "2") ∷ []) ∷ (some (ascii "9") ∷ []) ∷ []) ∷ [])

leaver : int_at 4 offline_packet ≡ some 1
unfolding int_at encode_offline_rq int_bytes
leaver = refl

friends_found :
    sql_select (select_friends_offline 1) 1 [] befriended
    ≡ done (true, ascii "2" ∷ ascii "9" ∷ []) (server [])
unfolding select_my_sql
friends_found = refl

two_and_nine : (stoi (ascii "2") ≡ some 2) × (stoi (ascii "9") ≡ some 9)
unfolding stoi
two_and_nine = (refl, refl)

offline_announced_example :
    (u : World canned) × (deal_offline_rq offline_packet (length offline_packet) 10 befriended
      ≡ done tt u)
    × (u.trace
        ≡ []
          ++ (deliveries befriended.online befriended.clients offline_packet (2 ∷ 9 ∷ [])
              ++ closing (lookup 1 befriended.online)))
    × ((other : ℕ)
        → lookup other u.online ≡ (if 1 == other then none else lookup other befriended.online))
offline_announced_example =
    offline_announced offline_packet 10 1 (ascii "2" ∷ ascii "9" ∷ []) (2 ∷ 9 ∷ []) befriended
      (server []) leaver friends_found (two_and_nine.0, (two_and_nine.1, tt))

stored_friends : store_friendship 9 2 (server []) ≡ done true (server [])
unfolding store_friendship sprintf_s update_my_sql insert_friend format_d
stored_friends = refl

friendship_both_ways_example :
    (db : List (List Row)) × (((true ≡ true)
        × Runs canned [] (insert_friend 9 2) false db
        × Runs canned db (insert_friend 2 9) false [])
      ⊎ ((true ≡ false) × Runs canned [] (insert_friend 9 2) true [])
      ⊎ ((true ≡ false)
          × Runs canned [] (insert_friend 9 2) false db
          × Runs canned db (insert_friend 2 9) true []))
friendship_both_ways_example = friendship_both_ways 9 2 (server []) (server []) true stored_friends

abbrev accepting : Bytes
accepting =
    encode_add_friend_rs
      (record new_add_friend_rs { result = def_add_friend_success; friend_id = 9; user_id = 2 })

accepting_fields :
    (int_at 4 accepting ≡ some 0) × (int_at 8 accepting ≡ some 9) × (int_at 12 accepting ≡ some 2)
unfolding int_at encode_add_friend_rs int_bytes
accepting_fields = (refl, refl, refl)

nine_is_offline : lookup 9 (server []).online ≡ none
unfolding lookup
nine_is_offline = refl

accepted_absent_friend_stops_server_example :
    deal_add_friend_rs accepting 36 20 (server []) ≢ done tt (server [])
accepted_absent_friend_stops_server_example =
    accepted_absent_friend_stops_server accepting 36 20 9 2 (server []) (server []) (server [])
      accepting_fields.0 accepting_fields.1 accepting_fields.2 stored_friends nine_is_offline
