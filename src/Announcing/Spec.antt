-- ===== src/Announcing/Spec.antt =====
-- What the database behind getUserInfoAndFriendInfo of IMServer/CKernel.cpp holds, and what it
-- makes the server send.
use instance_message.Base.{
  ℕ, ◌<◌, ◌≡◌, ◌≢◌, ◌++◌, Bool, List, [], ◌∷◌, Bytes, Map, length, lookup, map, some, two32,
}
use instance_message.Text.{NoNul}
use instance_message.Text.Decimal.{format_d}
use instance_message.Protocol.{def_name_max_length, def_feeling_max_length}
use instance_message.Server.World.{MySqlDriver, Row, Effect}
use instance_message.Server.Sql.{select_info, select_friends}
use instance_message.Server.Kernel.Info.{status_of}
use instance_message.Server.Leaving.{delivery}
use instance_message.Server.Accounts.{Answers}
use instance_message.Client.State.{Codec, Client}
use instance_message.Client.Received.{slot_transmit_data}
use instance_message.Profile.{listed}

abbrev pub All : (ℕ → Type 0) → List ℕ → Type 0
All P [] = Unit {0}
All P (n ∷ ns) = P n × All P ns

-- The data of a user fit the struct.
pub record Fits (id icon : ℕ) (name feeling : Bytes) : Type 0 where
  pub id_fits : id < two32
  pub icon_fits : icon < two32
  pub name_fits : length name < def_name_max_length
  pub feeling_fits : length feeling < def_feeling_max_length
  pub name_clean : NoNul name
  pub feeling_clean : NoNul feeling

abbrev pub id_row : ℕ → Row
id_row id = some (format_d id) ∷ []

-- A database that is up and holds users with their friends: while it holds them, its answers are
-- their data, and it goes on holding them.
pub record Directory (d : MySqlDriver) : Type 1 where
  pub Holds : d.Db → Type 0
  pub Known : ℕ → Type 0
  pub name : ℕ → Bytes
  pub feeling : ℕ → Bytes
  pub icon : ℕ → ℕ
  pub friends : ℕ → List ℕ
  pub fits : (id : ℕ) → Known id → Fits id (icon id) (name id) (feeling id)
  pub friends_known : (id : ℕ) → Known id → All Known (friends id)
  pub info_of :
      (db : d.Db) (id : ℕ)
      → Holds db
      → Known id
      → (db' : d.Db) × Answers d db
          (select_info id)
          ((some (name id) ∷ some (feeling id) ∷ some (format_d (icon id)) ∷ []) ∷ [])
          db'
        × Holds db'
  pub friends_of :
      (db : d.Db) (id : ℕ)
      → Holds db
      → Known id
      → (db' : d.Db) × Answers d db (select_friends id) (map id_row (friends id)) db' × Holds db'

module _ {d : MySqlDriver} (t : Directory d) where
  -- At the client of any other user the packet puts the user into the list of friends, with the
  -- name, the signature and the icon that are stored, online exactly if the user is.
  abbrev pub Shows : Map ℕ → (id : ℕ) → Bytes → Type 0
  Shows online id packet =
      (codec : Codec) (answer : Bool) (c : Client)
      → id ≢ c.user_id
      → slot_transmit_data codec answer packet c
        ≡ some (
            listed codec id (t.name id) (t.feeling id) (t.icon id) (status_of (lookup id online)) c)

  -- What is sent when a user comes online: for each friend, the friend's data to the user, and the
  -- user's to the friend.
  pub data Announced (online clients : Map ℕ) (user : ℕ) (me : Bytes)
      : List ℕ → List Effect → Type 0 where
    nobody : Announced online clients user me [] []
    friend :
        (id : ℕ) (packet : Bytes) {ids : List ℕ} {es : List Effect}
        → Shows online id packet
        → Announced online clients user me ids es
        → Announced online clients user me
            (id ∷ ids)
            (delivery online clients packet user ++ (delivery online clients me id ++ es))
