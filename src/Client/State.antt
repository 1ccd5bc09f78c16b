-- ===== src/Client/State.antt =====
-- The state of the client's kernel: the members of `CKernel` (IMClient/ckernel.h), the windows that
-- its handlers change, and what goes out to the user and to the server.
-- Qt's text codec is a parameter; a `QString` is its UTF-16 code units.
use instance_message.Base.{ℕ, Bool, Option, none, some, List, [], ◌∷◌, ◌++◌, Bytes, Map}

abbrev pub QString : Type 0
QString = List ℕ

pub record Codec : Type 0 where
  -- QTextCodec "gb2312": `toUnicode` of a C string, and what `fromUnicode( s ).data()` is up to its
  -- first NUL.
  pub to_unicode : Bytes → QString
  pub from_unicode : QString → Bytes
  -- What `s.toStdString().c_str()` is up to its first NUL.
  pub to_std_string : QString → Bytes

-- FriendForm
pub record FriendForm : Type 0 where
  pub id : ℕ
  pub name : QString
  pub feeling : QString
  pub icon_id : ℕ
  pub status : ℕ

-- A block of the browser of a chat window: a message of the friend, the user's own, or the notice
-- that the friend is not online. The time shown beside it is left out.
pub data Line : Type 0 where
  theirs : Bytes → Line
  mine : QString → Line
  friend_offline : Line

-- ChatDialog
pub record ChatDialog : Type 0 where
  pub id : ℕ
  pub name : QString
  pub chat : List Line
  pub visible : Bool

-- The message boxes of the handlers.
pub data Box : Type 0 where
  registered tel_registered name_exists tel_not_registered password_wrong : Box
  friend_added friend_not_exists friend_not_online friend_refused : QString → Box
  name_empty own_name already_friend no_network : Box

pub record UserPanel : Type 0 where
  pub name : QString
  pub feeling : QString
  pub icon_id : ℕ

pub record Client : Type 0 where
  -- m_userId, m_Username, m_mapIdtoForm, m_mapIdToDialog
  pub user_id : ℕ
  pub user_name : QString
  pub forms : Map FriendForm
  pub dialogs : Map ChatDialog
  -- The friend list window: the user's panel and the forms in its layout.
  pub panel : Option UserPanel
  pub layout : List ℕ
  pub login_visible : Bool
  pub list_visible : Bool
  pub boxes : List Box
  -- The packets handed to the mediator.
  pub sent : List Bytes
  pub exited : Bool

abbrev pub with_box : Client → Box → Client
with_box c b = record c { boxes = c.boxes ++ b ∷ [] }

abbrev pub with_sent : Client → Bytes → Client
with_sent c p = record c { sent = c.sent ++ p ∷ [] }

-- Of an access outside a buffer, or a call of the handler of an invalid parameter, the result is
-- `none`.
infixl 5 ◌>>=◌
abbrev pub ◌>>=◌ {ℓ κ} : {A : Type ℓ} {B : Type κ} → Option A → (A → Option B) → Option B
none >>= f = none
some a >>= f = f a
