-- ===== src/Profile/Examples.antt =====
-- The data of user 3, Tom, at the client of user 1.
use instance_message.Base.{◌≡◌, refl, true, false, some, List, [], ◌∷◌, ascii, lookup, arith}
use instance_message.Text.Decimal.{format_d}
use instance_message.Protocol.Messages.{UserInfo, new_user_info, encode_user_info}
use instance_message.Server.World.{MySqlDriver, Row, World, done}
use instance_message.Server.Sql.{select_info}
use instance_message.Server.Accounts.{Answers}
use instance_message.Server.Kernel.Info.{get_info_by_id, status_of}
use instance_message.Client.State.{Client}
use instance_message.Client.Received.{slot_transmit_data}
use instance_message.Client.Examples.{plain, friend, client}
use instance_message.Profile.{listed, Profile, stored_user_is_shown}

-- A connection that answers each query with the same rows.
abbrev one_answer : MySqlDriver
one_answer = record {
  Db = List Row;
  mysql_query = λ db sql. (db, false);
  mysql_store_result = λ db. (db, some db);
}

abbrev stored : List Row
stored = (some (ascii "Tom") ∷ some (ascii "busy") ∷ some (format_d 4) ∷ []) ∷ []

abbrev server : World one_answer
server = record { db = stored; online = (3, 30) ∷ []; arr_fun = []; clients = []; trace = [] }

abbrev me : Client
me = client (friend 0)

answered :
    Answers one_answer stored
      (select_info 3)
      ((some (ascii "Tom") ∷ some (ascii "busy") ∷ some (format_d 4) ∷ []) ∷ [])
      stored
answered = record { asked = stored; query = refl; store = refl }

stored_user_is_shown_example :
    (m : UserInfo) × Profile m (ascii "Tom") (ascii "busy")
    × (get_info_by_id 3 new_user_info server ≡ done m server)
    × (slot_transmit_data plain true (encode_user_info m) me
        ≡ some (
            listed plain 3 (ascii "Tom") (ascii "busy") 4 (status_of (lookup 3 ((3, 30) ∷ []))) me))
stored_user_is_shown_example =
    stored_user_is_shown plain true 3 4 (ascii "Tom") (ascii "busy") server stored me (omega arith)
      (omega arith) (omega arith) (omega arith) (omega arith) (omega arith) answered
      (λ e. absurd (ground arith))
