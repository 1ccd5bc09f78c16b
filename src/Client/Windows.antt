-- ===== src/Client/Windows.antt =====
-- IMClient: the windows as the kernel of ckernel.cpp makes and connects them, and what the user does
-- with them, in logindialog.cpp, friendlist.cpp and friendform.cpp.
use instance_message.Base.{
  ℕ, Bool, true, false, not, Option, none, some, List, [], ◌∷◌, Bytes, lookup, if◌then◌else◌,
}
use instance_message.Client.State.{QString, Codec, Client, Box, ◌>>=◌}
use instance_message.Client.Received.{slot_transmit_data}
use instance_message.Client.Slots.{
  slot_close_process, slot_show_chat_dialog, slot_add_friend, commit_login, commit_register,
  on_send_clicked, close_event,
}

-- The line edits of LoginDialog.
pub record LoginForm : Type 0 where
  pub tel_login : QString
  pub password_login : QString
  pub nicname_register : QString
  pub tel_register : QString
  pub password_register : QString

abbrev pub empty_form : LoginForm
empty_form = record {
  tel_login = [];
  password_login = [];
  nicname_register = [];
  tel_register = [];
  password_register = [];
}

-- LoginDialog::on_pb_clear_login_clicked and on_pb_clear_register_clicked
unfoldable pub clear_login : LoginForm → LoginForm
clear_login f = record f { tel_login = []; password_login = [] }

unfoldable pub clear_register : LoginForm → LoginForm
clear_register f = record f { nicname_register = []; tel_register = []; password_register = [] }

-- The entries of the menu of FriendList.
pub data MenuEntry : Type 0 where
  add_friend system_settings : MenuEntry

-- FriendList::slot_triggered; `name` is what the user enters when asked for a friend.
unfoldable pub slot_triggered : Codec → MenuEntry → (name : QString) → Client → Option Client
slot_triggered codec add_friend name c = slot_add_friend codec name c
slot_triggered codec system_settings name c = some c

-- FriendForm::on_pb_icon_clicked, of the form under a key.
unfoldable pub on_icon_clicked : ℕ → Client → Client
on_icon_clicked k c = elim (lookup k c.forms) [
  | some form ↦ slot_show_chat_dialog form.id c
  | none ↦ c
]

-- The client with the input of its first window.
pub record App : Type 0 where
  pub client : Client
  pub form : LoginForm

-- What the user does, or the network.
pub data Event : Type 0 where
  received : (yes_answer : Bool) → Bytes → Event
  types : LoginForm → Event
  login_committed register_committed login_cleared register_cleared login_closed : Event
  menu_triggered : MenuEntry → (name : QString) → Event
  icon_clicked : ℕ → Event
  send_clicked : ℕ → (plain html : QString) → Event
  list_closed : (yes_answer : Bool) → Event

-- The slot that an event ends in, as the kernel connects the signals.
unfoldable pub client_slot : Codec → LoginForm → Event → Client → Option Client
unfolding slot_triggered on_icon_clicked
client_slot codec f (received yes_answer buf) c = slot_transmit_data codec yes_answer buf c
client_slot codec f login_committed c = commit_login codec f.tel_login f.password_login c
client_slot codec f register_committed c =
    commit_register codec f.nicname_register f.tel_register f.password_register c
client_slot codec f login_closed c = some (slot_close_process c)
client_slot codec f (menu_triggered entry name) c = slot_triggered codec entry name c
client_slot codec f (icon_clicked k) c = some (on_icon_clicked k c)
client_slot codec f (send_clicked k plain html) c = on_send_clicked codec k plain html c
client_slot codec f (list_closed yes_answer) c = some (close_event yes_answer c)
client_slot codec f (types g) c = some c
client_slot codec f login_cleared c = some c
client_slot codec f register_cleared c = some c

unfoldable pub form_slot : Event → LoginForm → LoginForm
unfolding clear_login clear_register
form_slot (types g) f = g
form_slot login_cleared f = clear_login f
form_slot register_cleared f = clear_register f
form_slot _ f = f

unfoldable pub handle : Codec → Event → App → Option App
unfolding client_slot form_slot
handle codec e a = client_slot codec a.form e a.client >>= λ c.
    some (record { client = c; form = form_slot e a.form })

-- The constructor of CKernel, with the result of openNet.
unfoldable pub new_kernel : (opened : Bool) → App
new_kernel opened = record {
  client = record {
    user_id = 0;
    user_name = [];
    forms = [];
    dialogs = [];
    panel = none;
    layout = [];
    login_visible = true;
    list_visible = false;
    boxes = if opened then [] else Box.no_network ∷ [];
    sent = [];
    exited = not opened;
  };
  form = empty_form;
}

-- The event loop, which ends with the process.
unfoldable pub exec : Codec → List Event → App → Option App
unfolding handle
exec codec [] a = some a
exec codec (e ∷ es) a = if a.client.exited then some a else (handle codec e a >>= exec codec es)
