-- ===== src/Befriending.antt =====
-- Two users become friends: slot_addFriend of IMClient/ckernel.cpp at the asker, dealData and
-- dealAddFriendRq of IMServer/CKernel.cpp, dealAddFriendRq of IMClient/ckernel.cpp at the friend,
-- dealAddFriendRs of IMServer/CKernel.cpp, and dealAddFriendRs of IMClient/ckernel.cpp at the asker.
mod Request
mod Accepted
mod Examples
pub use Accepted.{Befriends}
use Accepted.{Befriended, accepts, tells}
use Request.{request, answer_packet, asks, relays, answers}
use instance_message.Base.{
  ℕ, ◌<◌, ◌≡◌, ap, ◌∙◌, Bool, true, false, some, [], ◌∷◌, Bytes, length, lookup, bytes_eq, two32,
  arith,
}
use instance_message.Text.{c_str, NoNul, strcpy_s-fits}
use instance_message.Text.Decimal.{format_d}
use instance_message.Protocol.{def_name_max_length}
use instance_message.Protocol.Messages.{
  new_add_friend_rq, encode_add_friend_rq, new_add_friend_rs, encode_add_friend_rs,
}
use instance_message.Protocol.Layout.{add_friend_rq_layout, add_friend_rs_layout}
use instance_message.Server.World.{MySqlDriver, World, done}
use instance_message.Server.Sql.{select_id}
use instance_message.Server.Accounts.{Answers}
use instance_message.Server.Kernel.Dispatch.{handler_table, deal_data}
use instance_message.Server.Chatting.{traced, sent_over}
use instance_message.Client.State.{QString, Codec, Client, Box, with_box, with_sent}
use instance_message.Client.Slots.{slot_add_friend, remove_spaces, is_empty, has_name}
use instance_message.Client.Received.{slot_transmit_data}
use instance_message.Announcing.{Directory}

-- A text for an array of the size of a name.
abbrev pub IsName : Bytes → Type 0
IsName s = (length s < def_name_max_length) × NoNul s

-- A name that the client of the asker accepts for a new friend.
pub record IsNew (name : QString) (c : Client) : Type 0 where
  pub not_blank : is_empty (remove_spaces name) ≡ false
  pub not_own : bytes_eq name c.user_name ≡ false
  pub not_friend : has_name name c.forms ≡ false

-- The request, the answer that accepts it, and what each of the clients and the server makes of
-- them.
pub record Friends {d : MySqlDriver} (before later : Directory d) (codec : Codec) (name : QString)
    (asking friend : Client) (from from' asker_socket friend_socket : ℕ) (w v : World d)
    (db' : d.Db) : Type 0 where
  pub packet : Bytes
  pub reply : Bytes
  pub sends : slot_add_friend codec name asking ≡ some (with_sent asking packet)
  pub relayed :
      deal_data packet (length packet) from w
      ≡ done tt (traced (record w { db = db' }) (sent_over packet (some friend_socket)))
  pub answered : slot_transmit_data codec true packet friend ≡ some (with_sent friend reply)
  pub stored : Befriended before later reply from' (asking.user_id) (friend.user_id) asker_socket v
  pub told :
      (yes_answer : Bool) (c : Client)
      → slot_transmit_data codec yes_answer reply c
        ≡ some (with_box c (Box.friend_added (codec.to_unicode (codec.from_unicode name))))

-- Two users become friends. The user of one client asks for the other by a name that the client
-- accepts, and the friend is online over a connected client; both names fit their arrays, and the
-- database has the friend's id for the name. The client sends one packet; the server sends it on
-- unchanged to the friend's client alone; that client, when its user agrees, sends one answer. The
-- server stores both directions of the friendship; it then sends the asker, which is online by
-- then too, its own data and those of its friends, each as the clients show them, and the asker's
-- to these; its friends are now those of before and the new one, in the order in which the
-- database answers. Then it sends the answer, which the asker's client shows as the
-- friend added. Each handler returns, and from then on the database holds the friendship.
pub befriended :
    {d : MySqlDriver} (before later : Directory d) (codec : Codec) (name : QString)
    (asking friend : Client) (from from' asker_socket socket friend_socket : ℕ) (w v : World d)
    (db' : d.Db)
    → IsNew name asking
    → IsName (codec.from_unicode name)
    → IsName (codec.to_std_string asking.user_name)
    → asking.user_id < two32
    → friend.user_id < two32
    → w.arr_fun ≡ handler_table
    → Answers d w.db
        (select_id (codec.from_unicode name))
        ((some (format_d friend.user_id) ∷ []) ∷ [])
        db'
    → lookup friend.user_id w.online ≡ some socket
    → lookup socket w.clients ≡ some friend_socket
    → Befriends before later asking.user_id friend.user_id
    → v.arr_fun ≡ handler_table
    → before.Holds v.db
    → later.Known asking.user_id
    → lookup asking.user_id v.online ≡ some asker_socket
    → Friends before later codec name asking friend from from' asker_socket friend_socket w v db'
befriended before later codec name asking friend from from' asker_socket socket friend_socket w v
      db' new text own a f t found on connected b t' h known on' =
    let gb = codec.from_unicode name in
    let (asked, copy, size, reads) = strcpy_s-fits new_add_friend_rq.friend_name gb text.0 text.1 in
    let (user_name, own_copy, own_size, _) =
      strcpy_s-fits new_add_friend_rq.user_name (codec.to_std_string asking.user_name) own.0
        own.1 in
    let (named, back, _, back_reads) =
      strcpy_s-fits new_add_friend_rs.friend_name gb text.0 text.1 in
    let (type, asker, _, body) =
      add_friend_rq_layout (request asking.user_id user_name asked) (omega arith) a own_size in
    let (type', result, to, user, body') =
      add_friend_rs_layout (answer_packet true asking.user_id friend.user_id named) (omega arith)
        (omega arith) a f in
    record {
      packet = encode_add_friend_rq (request asking.user_id user_name asked);
      reply = encode_add_friend_rs (answer_packet true asking.user_id friend.user_id named);
      sends =
          asks codec name user_name asked asking new.not_blank new.not_own new.not_friend copy
            own_copy;
      relayed =
          relays _ gb from friend.user_id socket friend_socket w db' t type (ap c_str body ∙ reads)
            text.0 f found on connected;
      answered =
          answers codec true _ gb named asking.user_id friend type asker (ap c_str body ∙ reads)
            back;
      stored =
          accepts before later _ from' asking.user_id friend.user_id asker_socket v b t' type'
            result to user h known on';
      told =
          λ yes_answer c. tells codec yes_answer _ gb c type' result (ap c_str body' ∙ back_reads);
    }
