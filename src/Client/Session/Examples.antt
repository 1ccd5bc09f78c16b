-- ===== src/Client/Session/Examples.antt =====
-- A short life of the client of ckernel.cpp: Tom is put into the list, and his window is opened.
use instance_message.Base.{
  ℕ, ◌≡◌, refl, true, false, ◌&&◌, some, List, [], ◌∷◌, ◌++◌, ascii, replicate, lookup, put, int_at,
  int_bytes,
}
use instance_message.Text.{c_str}
use instance_message.Protocol.Messages.{new_user_info, encode_user_info}
use instance_message.Client.State.{FriendForm, ChatDialog}
use instance_message.Client.Received.{slot_transmit_data, init_fun_arr, deal_user_info}
use instance_message.Client.Slots.{slot_show_chat_dialog, close_event}
use instance_message.Client.Windows.{App, Event, client_slot, handle, new_kernel, exec}
use instance_message.Client.Sync.{present}
use instance_message.Client.Order.{count, one_if}
use instance_message.Client.Examples.{plain}
use instance_message.Client.Session.{session_consistent}

abbrev events : List Event
events =
    Event.received true (
      encode_user_info (record new_user_info {
        id = 3;
        icon_id = 4;
        name = ascii "Tom" ++ replicate 17 0;
        feeling = ascii "busy" ++ replicate 96 0;
      }))
    ∷ Event.icon_clicked 3
    ∷ Event.list_closed false
    ∷ []

abbrev lives : (a : App) × (exec plain events (new_kernel true) ≡ some a)
unfolding exec handle client_slot new_kernel slot_transmit_data deal_user_info init_fun_arr
    encode_user_info int_at int_bytes c_str lookup put slot_show_chat_dialog close_event
lives = (_, refl)

session_consistent_example :
    let c = lives.0.client in
    ((k : ℕ) → present (lookup k c.forms) ≡ present (lookup k c.dialogs))
    × ((k : ℕ) → count k c.layout ≡ one_if (present (lookup k c.forms)))
    × ((k : ℕ) (f : FriendForm) → lookup k c.forms ≡ some f → f.id ≡ k)
    × ((k : ℕ) (d : ChatDialog) → lookup k c.dialogs ≡ some d → d.id ≡ k)
    × ((c.login_visible && c.list_visible) ≡ false)
session_consistent_example = session_consistent plain true events lives.0 lives.1
