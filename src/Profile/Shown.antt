-- ===== src/Profile/Shown.antt =====
-- The data of a user at the client of another: slot_transmitData and dealUserInfo of
-- IMClient/ckernel.cpp.
use instance_message.Base.{
  ℕ, ◌<◌, ◌≡◌, ◌≢◌, refl, ap, ◌∙◌, Bool, Option, none, some, ◌++◌, Bytes, length, two32, int_at,
  ne→==, arith,
}
use instance_message.Text.{c_str, c_str_at}
use instance_message.Protocol.{def_user_info, def_name_max_length, def_feeling_max_length}
use instance_message.Protocol.Messages.{UserInfo, encode_user_info}
use instance_message.Protocol.Layout.{user_info_layout}
use instance_message.Server.Kernel.Info.{status_of}
use instance_message.Client.State.{Codec, Client}
use instance_message.Client.Received.{
  set_friend_info, put_friend, deal_user_info, Handler, call_handler, slot_transmit_data,
}
use instance_message.Client.Dispatching.{transmit_by_type}

-- A struct that the server can have filled: a type, numbers and arrays of the sizes of config.h,
-- with the texts in the arrays.
pub record Profile (m : UserInfo) (name feeling : Bytes) : Type 0 where
  pub typed : m.type ≡ def_user_info
  pub icon_fits : m.icon_id < two32
  pub name_size : length m.name ≡ def_name_max_length
  pub feeling_size : length m.feeling ≡ def_feeling_max_length
  pub name_reads : (rest : Bytes) → c_str (m.name ++ rest) ≡ some name
  pub feeling_reads : c_str m.feeling ≡ some feeling

-- The list of friends with a user in it.
abbrev pub listed : Codec → (id : ℕ) (name feeling : Bytes) (icon status : ℕ) → Client → Client
listed codec id name feeling icon status c =
    put_friend (set_friend_info id (codec.to_unicode name) (codec.to_unicode feeling) icon status) c

pub small_status : (o : Option ℕ) → status_of o < two32
small_status none = omega arith
small_status (some s) = omega arith

taken :
    (codec : Codec) (buf name feeling : Bytes) (id icon status : ℕ) (c : Client)
    → c_str_at 16 buf ≡ some name
    → c_str_at 36 buf ≡ some feeling
    → int_at 4 buf ≡ some id
    → int_at 8 buf ≡ some icon
    → int_at 12 buf ≡ some status
    → id ≢ c.user_id
    → deal_user_info codec buf c ≡ some (listed codec id name feeling icon status c)
unfolding deal_user_info
taken codec buf name feeling id icon status c n f i k s ne =
    rw (n, f, i, k, s, ne→== id c.user_id ne) refl

handled :
    (codec : Codec) (answer : Bool) (buf : Bytes) (c : Client)
    → call_handler codec answer Handler.user_info buf c ≡ deal_user_info codec buf c
unfolding call_handler
handled codec answer buf c = refl

-- What the client of another user makes of the struct.
pub shown :
    (codec : Codec) (answer : Bool) (m : UserInfo) (name feeling : Bytes) (c : Client)
    → Profile m name feeling
    → m.id < two32
    → m.status < two32
    → m.id ≢ c.user_id
    → slot_transmit_data codec answer (encode_user_info m) c
      ≡ some (listed codec m.id name feeling m.icon_id m.status c)
shown codec answer m name feeling c p small status ne =
    let (type, id, icon, online, texts, second) =
      user_info_layout m (rw (p.typed) (omega arith)) small p.icon_fits status p.name_size in
    transmit_by_type codec answer (encode_user_info m) def_user_info c (type ∙ ap some p.typed)
      (omega arith)
    ∙ handled codec answer (encode_user_info m) c
    ∙ taken codec (encode_user_info m) name feeling m.id m.icon_id m.status c
        (ap c_str texts ∙ p.name_reads m.feeling) (ap c_str second ∙ p.feeling_reads) id icon online
        ne
