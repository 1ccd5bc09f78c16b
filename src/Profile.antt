-- ===== src/Profile.antt =====
-- The data of a user on their way: getInfoById of IMServer/CKernel.cpp, which asks the database,
-- and slot_transmitData and dealUserInfo of IMClient/ckernel.cpp, which show them in the list of
-- friends.
mod Shown
mod Asked
mod Examples
pub use Shown.{Profile}
unfoldable pub use Shown.{listed}
pub use Shown.{small_status, shown}
pub use Asked.{Blank, Told, answered}
use Asked.{unanswered}
use instance_message.Base.{
  ℕ, ◌<◌, ◌≡◌, ◌≢◌, refl, sym, subst, ◌∙◌, Bool, true, some, [], ◌∷◌, Bytes, length, lookup, two32,
}
use instance_message.Text.{NoNul}
use instance_message.Text.Decimal.{format_d}
use instance_message.Protocol.{def_name_max_length, def_feeling_max_length}
use instance_message.Protocol.Messages.{UserInfo, new_user_info, encode_user_info}
use instance_message.Server.World.{MySqlDriver, World, done}
use instance_message.Server.Sql.{select_info}
use instance_message.Server.Kernel.Info.{status_of, get_info_by_id}
use instance_message.Server.Accounts.{Answers}
use instance_message.Client.State.{Codec, Client}
use instance_message.Client.Received.{slot_transmit_data}

module _ {d : MySqlDriver} where
  -- A filled struct, at the client of another user.
  pub told_shown :
      (codec : Codec) (answer : Bool) (id icon : ℕ) (name feeling : Bytes) (db' : d.Db)
      (info : UserInfo) (w : World d) (c : Client)
      → (x : Told id icon name feeling db' info w) → id < two32
      → id ≢ c.user_id
      → slot_transmit_data codec answer (encode_user_info x.m) c
        ≡ some (listed codec id name feeling icon (status_of (lookup id w.online)) c)
  told_shown codec answer id icon name feeling db' info w c x small ne =
      subst
        (λ (y : ℕ × ℕ × ℕ).
          slot_transmit_data codec answer (encode_user_info x.m) c
          ≡ some (listed codec y.0 name feeling y.1 y.2 c))
        (λ i. (x.number i, x.icon_same i, x.status i))
        (shown codec answer x.m name feeling c x.profile (rw (x.number) small)
          (rw (x.status) (small_status (lookup id w.online))) (λ e. ne (sym (x.number) ∙ e)))

  -- The data of a user as the database answers them, texts of fewer than 20 and 100 bytes without a
  -- NUL, are read back at the client of another user as they are stored: its list shows the user
  -- under that id, with the two texts, the icon, and online exactly if the user is.
  pub stored_user_is_shown :
      (codec : Codec) (answer : Bool) (id icon : ℕ) (name feeling : Bytes) (w : World d)
      (db' : d.Db) (c : Client)
      → id < two32
      → icon < two32
      → length name < def_name_max_length
      → length feeling < def_feeling_max_length
      → NoNul name
      → NoNul feeling
      → Answers d w.db
          (select_info id)
          ((some name ∷ some feeling ∷ some (format_d icon) ∷ []) ∷ [])
          db'
      → id ≢ c.user_id
      → (m : UserInfo) × Profile m name feeling
        × (get_info_by_id id new_user_info w ≡ done m (record w { db = db' }))
        × (slot_transmit_data codec answer (encode_user_info m) c
            ≡ some (listed codec id name feeling icon (status_of (lookup id w.online)) c))
  stored_user_is_shown codec answer id icon name feeling w db' c small icon_fits n f clean clear
        answers ne =
      let blank : Blank new_user_info = record {
        typed = refl;
        name_size = refl;
        feeling_size = refl;
      } in
      let told =
        answered id icon name feeling db' new_user_info w blank icon_fits n f clean clear answers in
      (
        told.m,
        told.profile,
        told.ran,
        told_shown codec answer id icon name feeling db' new_user_info w c told small ne,
      )

  -- A struct that a query leaves as it is, but for the id and the status.
  pub kept-Profile :
      (codec : Codec) (answer : Bool) (id : ℕ) (previous : UserInfo) (name feeling : Bytes)
      (w : World d) (c : Client)
      → Profile previous name feeling
      → (d.mysql_query w.db (select_info id)).1 ≡ true
      → id < two32
      → id ≢ c.user_id
      → (m : UserInfo) × Profile m name feeling
        × (get_info_by_id id previous w
            ≡ done m (record w { db = (d.mysql_query w.db (select_info id)).0 }))
        × (slot_transmit_data codec answer (encode_user_info m) c
            ≡ some
                (listed codec id name feeling previous.icon_id (status_of (lookup id w.online)) c))
  kept-Profile codec answer id previous name feeling w c p failed small ne =
      let m = record previous { id = id; status = status_of (lookup id w.online) } in
      let q : Profile m name feeling = record {
        typed = p.typed;
        icon_fits = p.icon_fits;
        name_size = p.name_size;
        feeling_size = p.feeling_size;
        name_reads = p.name_reads;
        feeling_reads = p.feeling_reads;
      } in
      (
        m,
        q,
        unanswered id previous w failed,
        shown codec answer m name feeling c q small (small_status (lookup id w.online)) ne,
      )
