-- ===== src/Befriending/Request.antt =====
-- A request for friendship: slot_addFriend of IMClient/ckernel.cpp, dealAddFriendRq of
-- IMServer/CKernel.cpp, and dealAddFriendRq of IMClient/ckernel.cpp with the friend's answer.
use instance_message.Base.{
  ℕ, ◌<◌, ◌≡◌, refl, ap, ◌∙◌, Bool, false, none, some, [], ◌∷◌, Bytes, length, length-append,
  lookup, bytes_eq, int_at, two32, arith, if◌then◌else◌,
}
use instance_message.Text.{c_str_at, strcpy_s, sprintf_s}
use instance_message.Text.Decimal.{format_d, stoi, stoi-format_d}
use instance_message.Protocol.{
  def_name_max_length, def_add_friend_rq, def_add_friend_success, def_add_friend_refuse,
}
use instance_message.Protocol.Messages.{
  AddFriendRq, AddFriendRs, new_add_friend_rq, encode_add_friend_rq, new_add_friend_rs,
  encode_add_friend_rs,
}
use instance_message.Server.World.{
  MySqlDriver, World, M, done, c_str_from, print_to, or_stop, send_data, uncaught_exception,
}
use instance_message.Server.MySql.{sql_select, push_rows, push_columns}
use instance_message.Server.Sql.{select_id}
use instance_message.Server.Kernel.Dispatch.{handler_table, deal_data, call_handler}
use instance_message.Server.Kernel.Friends.{deal_add_friend_rq, reply_offline}
use instance_message.Server.Dispatching.{dispatch_by_type}
use instance_message.Server.Frame.{bind-done, or_stop-done}
use instance_message.Server.Chatting.{traced, sent_over, send_data-delivery}
use instance_message.Server.Registration.{select-Answers}
use instance_message.Server.Accounts.{Answers}
use instance_message.Client.State.{QString, Codec, Client, with_sent}
use instance_message.Client.Slots.{slot_add_friend, remove_spaces, is_empty, has_name}
use instance_message.Client.Received.{
  call_handler as client_handler, deal_add_friend_rq as answer_request, slot_transmit_data,
}
use instance_message.Client.Dispatching.{transmit_by_type}

-- A request as it is packed, with the two names in their arrays.
abbrev pub request : (user_id : ℕ) → (user_name friend_name : Bytes) → AddFriendRq
request user_id user_name friend_name = record new_add_friend_rq {
  user_id = user_id;
  user_name = user_name;
  friend_name = friend_name;
}

abbrev pub answer_packet :
    (yes_answer : Bool) → (asker user : ℕ) → (friend_name : Bytes) → AddFriendRs
answer_packet yes_answer asker user friend_name = record new_add_friend_rs {
  friend_id = asker;
  user_id = user;
  friend_name = friend_name;
  result = if yes_answer then def_add_friend_success else def_add_friend_refuse;
}

pub asks :
    (codec : Codec) (name : QString) (user_name friend_name : Bytes) (c : Client)
    → is_empty (remove_spaces name) ≡ false
    → bytes_eq name c.user_name ≡ false
    → has_name name c.forms ≡ false
    → strcpy_s new_add_friend_rq.friend_name (codec.from_unicode name) ≡ some friend_name
    → strcpy_s new_add_friend_rq.user_name (codec.to_std_string c.user_name) ≡ some user_name
    → slot_add_friend codec name c
      ≡ some (with_sent c (encode_add_friend_rq (request c.user_id user_name friend_name)))
unfolding slot_add_friend
asks codec name user_name friend_name c b o h f u = rw (b, o, h, f, u) refl

fits_id :
    (name : Bytes)
    → length name < def_name_max_length
    → sprintf_s 1024 (select_id name) ≡ some (select_id name)
unfolding sprintf_s select_id
fits_id name h = ground (arith, length-append name (b'\'' ∷ b';' ∷ []))

one_id : (id : Bytes) → push_rows 1 ((some id ∷ []) ∷ []) [] ≡ some (id ∷ [])
unfolding push_rows push_columns
one_id id = refl

-- The request at the server: it goes on to the friend's client, unchanged.
pub relays :
    {d : MySqlDriver} (buf name : Bytes) (from friend socket s : ℕ) (w : World d) (db' : d.Db)
    → w.arr_fun ≡ handler_table
    → int_at 0 buf ≡ some def_add_friend_rq
    → c_str_at 28 buf ≡ some name
    → length name < def_name_max_length
    → friend < two32
    → Answers d w.db (select_id name) ((some (format_d friend) ∷ []) ∷ []) db'
    → lookup friend w.online ≡ some socket
    → lookup socket w.clients ≡ some s
    → deal_data buf (length buf) from w
      ≡ done tt (traced (record w { db = db' }) (sent_over buf (some s)))
unfolding call_handler deal_add_friend_rq
relays {d} buf name from friend socket s w db' t e n h f answers on c =
    dispatch_by_type buf (length buf) from def_add_friend_rq w t e (omega arith)
    ∙ bind-done (c_str_from 28 buf) _ (or_stop-done _ w n)
    ∙ bind-done (print_to 1024 (select_id name)) _ (or_stop-done _ w (fits_id name h))
    ∙ bind-done (sql_select (select_id name) 1 []) _
        (select-Answers (select_id name) 1 _ _ db' w answers (one_id (format_d friend)))
    ∙ bind-done (or_stop uncaught_exception (stoi (format_d friend))) _
        (or_stop-done _ w1 (stoi-format_d friend f))
    ∙ ap
        (λ o.
          (elim o as (λ _. M d (Unit {0})) [
            | some k ↦ send_data buf (length buf) k
            | none ↦ reply_offline name from
          ])
            w1)
        on
    ∙ send_data-delivery socket buf w1
    ∙ ap (λ o. done tt (traced w1 (sent_over buf o))) c
  where
    w1 : World d
    w1 = record w { db = db' }

-- The friend's client: it answers with the id of the asker, its own, and the name that was asked.
pub answers :
    (codec : Codec) (yes_answer : Bool) (buf name array : Bytes) (asker : ℕ) (c : Client)
    → int_at 0 buf ≡ some def_add_friend_rq
    → int_at 4 buf ≡ some asker
    → c_str_at 28 buf ≡ some name
    → strcpy_s new_add_friend_rs.friend_name name ≡ some array
    → slot_transmit_data codec yes_answer buf c
      ≡ some (with_sent c (encode_add_friend_rs (answer_packet yes_answer asker c.user_id array)))
unfolding answer_request client_handler
answers codec yes_answer buf name array asker c t a n s =
    transmit_by_type codec yes_answer buf def_add_friend_rq c t (omega arith) ∙ rw (a, n, s) refl
