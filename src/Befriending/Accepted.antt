-- ===== src/Befriending/Accepted.antt =====
-- An accepted request: dealAddFriendRs of IMServer/CKernel.cpp, and of IMClient/ckernel.cpp.
use mathlib.Core.List.{Perm}
use instance_message.Base.{
  ℕ, ◌≡◌, refl, ap, ◌∙◌, Bool, false, some, List, ◌∷◌, ◌++◌, Bytes, length, lookup, int_at, arith,
  append_assoc,
}
use instance_message.Text.{c_str_at}
use instance_message.Protocol.{def_add_friend_rs, def_add_friend_success}
use instance_message.Server.World.{MySqlDriver, World, Effect, done, out_of_bounds, or_stop}
use instance_message.Server.Sql.{insert_friend}
use instance_message.Server.Kernel.Info.{get_user_info_and_friend_info}
use instance_message.Server.Kernel.Dispatch.{handler_table, deal_data, call_handler}
use instance_message.Server.Kernel.Friends.{store_friendship, deal_add_friend_rs}
use instance_message.Server.Dispatching.{dispatch_by_type}
use instance_message.Server.Frame.{bind-done, or_stop-done}
use instance_message.Server.Friendship.{Runs, stores_both}
use instance_message.Server.Chatting.{traced, sent_over}
use instance_message.Server.Leaving.{delivery, send_if_online-delivery}
use instance_message.Client.State.{Codec, Client, Box, with_box}
use instance_message.Client.Received.{
  call_handler as client_handler, deal_add_friend_rs as show_answer, slot_transmit_data,
}
use instance_message.Client.Dispatching.{transmit_by_type}
use instance_message.Announcing.{Directory, welcomed, Shows, Announced}

-- What the two insertions make of the users that the database holds: the one before is as it was,
-- with each of the two a friend of the other. In which order a query finds the friends is left open.
pub record Befriends {d : MySqlDriver} (before later : Directory d) (asker user : ℕ) : Type 0 where
  pub inserts :
      (db : d.Db)
      → before.Holds db
      → (db' : d.Db) × (db'' : d.Db) × Runs d db (insert_friend asker user) false db'
        × Runs d db' (insert_friend user asker) false db''
        × later.Holds db''
  pub forth : Perm (later.friends asker) (user ∷ before.friends asker)
  pub back : Perm (later.friends user) (asker ∷ before.friends user)

module _ {d : MySqlDriver} (before later : Directory d) where
  -- The end of the answer at the server.
  pub record Befriended (buf : Bytes) (from asker user : ℕ) (socket : ℕ) (w : World d)
      : Type 0 where
    pub u : World d
    pub me : Bytes
    pub es : List Effect
    pub shows : Shows later w.online asker me
    pub announced : Announced later w.online w.clients asker me (later.friends asker) es
    pub friends_now : Perm (later.friends asker) (user ∷ before.friends asker)
    pub ran : deal_data buf (length buf) from w ≡ done tt u
    pub traced_so :
        u.trace
        ≡ w.trace
          ++ (sent_over me (lookup socket w.clients)
              ++ (es ++ delivery w.online w.clients buf asker))
    pub online_kept : u.online ≡ w.online
    pub holds : later.Holds u.db

  pub accepts :
      (buf : Bytes) (from asker user socket : ℕ) (w : World d)
      → Befriends before later asker user
      → w.arr_fun ≡ handler_table
      → int_at 0 buf ≡ some def_add_friend_rs
      → int_at 4 buf ≡ some def_add_friend_success
      → int_at 8 buf ≡ some asker
      → int_at 12 buf ≡ some user
      → before.Holds w.db
      → later.Known asker
      → lookup asker w.online ≡ some socket
      → Befriended buf from asker user socket w
  unfolding call_handler deal_add_friend_rs
  accepts buf from asker user socket w b t e r f s h known on =
      let (db', db'', first, second, after) = b.inserts w.db h in
      let w1 : World d = record w { db = db'' } in
      let x = welcomed later asker socket w1 on known after in
      record {
        u = traced x.u (delivery x.u.online x.u.clients buf asker);
        me = x.me;
        es = x.es;
        shows = x.shows;
        announced = x.announced;
        friends_now = b.forth;
        ran =
            dispatch_by_type buf (length buf) from def_add_friend_rs w t e (omega arith)
            ∙ bind-done (or_stop out_of_bounds (int_at 4 buf)) _ (or_stop-done _ w r)
            ∙ bind-done (or_stop out_of_bounds (int_at 8 buf)) _ (or_stop-done _ w f)
            ∙ bind-done (or_stop out_of_bounds (int_at 12 buf)) _ (or_stop-done _ w s)
            ∙ bind-done (store_friendship asker user) _
                (stores_both asker user w db' db'' first second)
            ∙ bind-done (get_user_info_and_friend_info asker) _ x.ran
            ∙ send_if_online-delivery asker buf x.u;
        traced_so =
            (λ i. x.traced_so i ++ delivery (x.online_kept i) (x.clients_kept i) buf asker)
            ∙ append_assoc w.trace _ _
            ∙ ap (◌++◌ w.trace) (append_assoc (sent_over x.me (lookup socket w.clients)) x.es _);
        online_kept = x.online_kept;
        holds = x.holds;
      }

-- The answer at the client that asked.
pub tells :
    (codec : Codec) (yes_answer : Bool) (buf name : Bytes) (c : Client)
    → int_at 0 buf ≡ some def_add_friend_rs
    → int_at 4 buf ≡ some def_add_friend_success
    → c_str_at 16 buf ≡ some name
    → slot_transmit_data codec yes_answer buf c
      ≡ some (with_box c (Box.friend_added (codec.to_unicode name)))
unfolding client_handler show_answer
tells codec yes_answer buf name c t r n =
    transmit_by_type codec yes_answer buf def_add_friend_rs c t (omega arith) ∙ rw (r, n) refl
