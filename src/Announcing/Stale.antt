-- ===== src/Announcing/Stale.antt =====
-- The loop of getUserInfoAndFriendInfo of IMServer/CKernel.cpp, with a query that fails.
use instance_message.Base.{
  ℕ, ◌<◌, ◌≡◌, ◌≢◌, ◌∙◌, Bool, true, some, List, [], ◌∷◌, ◌++◌, Bytes, map, length, lookup, two32,
  ap, append_assoc,
}
use instance_message.Text.{NoNul}
use instance_message.Text.Decimal.{format_d, stoi-format_d, stoi}
use instance_message.Protocol.{def_name_max_length, def_feeling_max_length}
use instance_message.Protocol.Messages.{UserInfo, encode_user_info}
use instance_message.Server.World.{MySqlDriver, World, Effect, done, or_stop, uncaught_exception}
use instance_message.Server.Sql.{select_info}
use instance_message.Server.Kernel.Info.{
  status_of, get_info_by_id, send_if_online, send_friend_infos,
}
use instance_message.Server.Accounts.{Answers}
use instance_message.Server.Frame.{bind-done, or_stop-done}
use instance_message.Server.Chatting.{traced}
use instance_message.Server.Leaving.{delivery}
use instance_message.Client.State.{Codec, Client}
use instance_message.Client.Received.{slot_transmit_data}
use instance_message.Profile.{listed, Blank, Profile, answered, told_shown, kept-Profile}
use instance_message.Announcing.Told.{sent_struct}

module _ {d : MySqlDriver} (user : ℕ) (me : UserInfo) where
  -- What one round of the loop sends: the friend's data to the user, and the user's to the friend.
  abbrev pub round_sends : World d → UserInfo → ℕ → List Effect
  round_sends w m id =
      delivery w.online w.clients (encode_user_info m) user
      ++ delivery w.online w.clients (encode_user_info me) id

  -- One round, by what `getInfoById` makes of the struct.
  one_round :
      (id : ℕ) (previous m : UserInfo) (ids : List ℕ) (w : World d) (db' : d.Db)
      → Blank me
      → id < two32
      → Blank m
      → get_info_by_id id previous w ≡ done m (record w { db = db' })
      → send_friend_infos user me previous (map format_d (id ∷ ids)) w
        ≡ send_friend_infos user me m
            (map format_d ids)
            (traced (record w { db = db' }) (round_sends w m id))
  unfolding send_friend_infos
  one_round id previous m ids w db' b small blank ran =
      let w1 : World d = record w { db = db' } in
      let one = delivery w.online w.clients (encode_user_info m) user in
      let two = delivery w.online w.clients (encode_user_info me) id in
      bind-done (or_stop uncaught_exception (stoi (format_d id))) _
        (or_stop-done _ w (stoi-format_d id small))
      ∙ bind-done (get_info_by_id id previous) _ ran
      ∙ bind-done (send_if_online user (encode_user_info m) 136) _ (sent_struct user m w1 blank)
      ∙ bind-done (send_if_online id (encode_user_info me) 136) _
          (sent_struct id me (traced w1 one) b)
      ∙ ap (λ l. send_friend_infos user me m (map format_d ids) (record w1 { trace = l }))
          (append_assoc w.trace one two)

Profile-Blank : (m : UserInfo) (name feeling : Bytes) → Profile m name feeling → Blank m
Profile-Blank m name feeling p = record {
  typed = p.typed;
  name_size = p.name_size;
  feeling_size = p.feeling_size;
}

-- Two rounds of the loop over a user's friends, at any point of it, whatever comes after them. The
-- database answers the query for the first friend, with texts that fit and hold no NUL, and the
-- query for the second one fails. The user is sent both all the same, and its client lists the
-- second under its own id and status but with the name, the signature and the icon of the first:
-- the struct that the rounds share keeps them. Both ids and the icon are of 32 bits, and neither
-- friend is the user of that client.
pub failed_query_shows_previous_friend :
    {d : MySqlDriver} (codec : Codec) (answer : Bool) (user first second icon : ℕ)
    (me previous : UserInfo) (name feeling : Bytes) (ids : List ℕ) (w : World d) (db' : d.Db)
    (c : Client)
    → Blank me
    → Blank previous
    → first < two32
    → second < two32
    → icon < two32
    → length name < def_name_max_length
    → length feeling < def_feeling_max_length
    → NoNul name
    → NoNul feeling
    → Answers d w.db
        (select_info first)
        ((some name ∷ some feeling ∷ some (format_d icon) ∷ []) ∷ [])
        db'
    → (d.mysql_query db' (select_info second)).1 ≡ true
    → first ≢ c.user_id
    → second ≢ c.user_id
    → let after : World d = record w { db = (d.mysql_query db' (select_info second)).0 } in
      (m n : UserInfo) × (send_friend_infos user me previous (map format_d (first ∷ second ∷ ids)) w
        ≡ send_friend_infos user me n
            (map format_d ids)
            (traced after (round_sends user me w m first ++ round_sends user me w n second)))
      × (slot_transmit_data codec answer (encode_user_info m) c
          ≡ some (listed codec first name feeling icon (status_of (lookup first w.online)) c))
      × (slot_transmit_data codec answer (encode_user_info n) c
          ≡ some (listed codec second name feeling icon (status_of (lookup second w.online)) c))
failed_query_shows_previous_friend {d} codec answer user first second icon me previous name feeling
      ids w db' c b blank f s i n l clean clear answers failed ne ne' =
    let x = answered first icon name feeling db' previous w blank i n l clean clear answers in
    let sent = round_sends user me w x.m first in
    let w1 : World d = traced (record w { db = db' }) sent in
    let (m', kept, ran, shows) =
      kept-Profile codec answer second x.m name feeling w1 c x.profile failed s ne' in
    (
      x.m,
      m',
      one_round user me first previous x.m (second ∷ ids) w db' b f
            (Profile-Blank x.m name feeling x.profile) x.ran
          ∙ one_round user me second x.m m' ids w1 _ b s (Profile-Blank m' name feeling kept) ran
          ∙ ap
              (λ t.
                send_friend_infos user me m' (map format_d ids)
                  (record w1 { db = (d.mysql_query db' (select_info second)).0; trace = t }))
              (append_assoc w.trace sent (round_sends user me w m' second)),
      told_shown codec answer first icon name feeling db' previous w c x f ne,
      shows
          ∙ ap
              (λ k.
                some (listed codec second name feeling k (status_of (lookup second w.online)) c))
              (x.icon_same),
    )
