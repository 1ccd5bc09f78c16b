-- ===== src/Client/Session.antt =====
-- The client of IMClient from the constructor of CKernel to its end, whatever the user and the server
-- do.
mod Slots
mod Examples
pub use Slots.{Consistent}
use Slots.{
  Apart-Stays, commit_login-Apart, commit_register-Apart, slot_triggered-Apart,
  icon_clicked-Consistent, close_process-Consistent, close_event-Consistent, send_clicked-Stays,
}
use instance_message.Base.{
  ℕ, ◌≡◌, refl, sym, ap, subst, ◌∙◌, Bool, false, ◌&&◌, not, Option-cases, Bool-cases, inl, inr,
  some, List, [], ◌∷◌, lookup, arith, if◌then◌else◌, some-injective,
}
use instance_message.Client.State.{Codec, FriendForm, ChatDialog, ◌>>=◌}
use instance_message.Client.Slots.{commit_login, commit_register}
use instance_message.Client.Windows.{
  LoginForm, slot_triggered, App, Event, client_slot, handle, new_kernel, exec,
}
use instance_message.Client.Keeps.{Keeps}
use instance_message.Client.Sync.{present, transmit_data-InSync}
use instance_message.Client.Order.{count, one_if, slot_transmit_data-Orders}

nothing-Stays : Keeps Consistent (λ c. some c)
nothing-Stays c c' h r = subst Consistent (some-injective c c' r) h

client_slot-Stays :
    (codec : Codec) (f : LoginForm) (e : Event) → Keeps Consistent (client_slot codec f e)
unfolding client_slot
client_slot-Stays codec f (Event.received yes_answer buf) c c' h r = record {
  in_sync = transmit_data-InSync codec yes_answer buf c c' h.in_sync r;
  ordered = slot_transmit_data-Orders codec yes_answer buf c c' h.ordered r;
}
client_slot-Stays codec f Event.login_committed c c' h r =
    Apart-Stays (commit_login codec f.tel_login f.password_login)
      (commit_login-Apart codec f.tel_login f.password_login) c c' h r
client_slot-Stays codec f Event.register_committed c c' h r =
    Apart-Stays (commit_register codec f.nicname_register f.tel_register f.password_register)
      (commit_register-Apart codec f.nicname_register f.tel_register f.password_register) c c' h r
client_slot-Stays codec f Event.login_closed c c' h r =
    subst Consistent (some-injective _ c' r) (close_process-Consistent c h)
client_slot-Stays codec f (Event.menu_triggered entry name) c c' h r =
    Apart-Stays (slot_triggered codec entry name) (slot_triggered-Apart codec entry name) c c' h r
client_slot-Stays codec f (Event.icon_clicked k) c c' h r =
    subst Consistent (some-injective _ c' r) (icon_clicked-Consistent k c h)
client_slot-Stays codec f (Event.send_clicked k plain html) c c' h r =
    send_clicked-Stays codec k plain html c c' h r
client_slot-Stays codec f (Event.list_closed yes_answer) c c' h r =
    subst Consistent (some-injective _ c' r) (close_event-Consistent yes_answer c h)
client_slot-Stays codec f (Event.types g) c c' h r = nothing-Stays c c' h r
client_slot-Stays codec f Event.login_cleared c c' h r = nothing-Stays c c' h r
client_slot-Stays codec f Event.register_cleared c c' h r = nothing-Stays c c' h r

handle-Consistent :
    (codec : Codec) (e : Event) (a b : App)
    → Consistent a.client
    → handle codec e a ≡ some b
    → Consistent b.client
unfolding handle
handle-Consistent codec e a b h r = elim (Option-cases (client_slot codec a.form e a.client)) [
  | inl out ↦ absurd (ground arith)
  | inr (c, ran) ↦ client_slot-Stays codec a.form e a.client b.client h (ground arith)
]

exec_on :
    (codec : Codec) (e : Event) (es : List Event) (a b : App)
    → a.client.exited ≡ false
    → handle codec e a ≡ some b
    → exec codec (e ∷ es) a ≡ exec codec es b
unfolding exec
exec_on codec e es a b running ran =
    ap (λ x. if x then some a else (handle codec e a >>= exec codec es)) running
    ∙ ap (λ o. o >>= exec codec es) ran

exec-Consistent :
    (codec : Codec) (es : List Event) (a b : App)
    → Consistent a.client
    → exec codec es a ≡ some b
    → Consistent b.client
unfolding exec
exec-Consistent codec [] a b h r = subst (λ (x : App). Consistent x.client) (some-injective a b r) h
exec-Consistent codec (e ∷ es) a b h r = elim (Bool-cases a.client.exited) [
  | inl over ↦
      subst (λ (x : App). Consistent x.client) (some-injective a b (sym (rw over refl) ∙ r)) h
  | inr running ↦ elim (Option-cases (handle codec e a)) [
    | inl out ↦ absurd (ground arith)
    | inr (m, ran) ↦
        exec-Consistent codec es m b (handle-Consistent codec e a m h ran)
          (sym (exec_on codec e es a m running ran) ∙ r)
  ]
]

new_kernel-Consistent : (opened : Bool) → Consistent (new_kernel opened).client
unfolding new_kernel lookup
new_kernel-Consistent opened = record {
  in_sync = λ id. refl;
  ordered = record {
    own_form = λ k f e. absurd (ground arith);
    own_dialog = λ k d e. absurd (ground arith);
    shown_once = λ k. refl;
    one_window = refl;
  };
}

-- Whatever the user does and whatever packets arrive, from the start of the client to any later
-- event that the client gets to: the friends with a form are those with a chat window, each of them
-- stands in the list of friends once and nobody else does, a form and a chat window stand under
-- the id of their friend, so that what is written in a window goes to that friend, and the login
-- window and the list are not shown together.
pub session_consistent :
    (codec : Codec) (opened : Bool) (es : List Event) (a : App)
    → exec codec es (new_kernel opened) ≡ some a
    → let c = a.client in
      ((k : ℕ) → present (lookup k c.forms) ≡ present (lookup k c.dialogs))
      × ((k : ℕ) → count k c.layout ≡ one_if (present (lookup k c.forms)))
      × ((k : ℕ) (f : FriendForm) → lookup k c.forms ≡ some f → f.id ≡ k)
      × ((k : ℕ) (d : ChatDialog) → lookup k c.dialogs ≡ some d → d.id ≡ k)
      × ((c.login_visible && c.list_visible) ≡ false)
session_consistent codec opened es a r =
    let h = exec-Consistent codec es (new_kernel opened) a (new_kernel-Consistent opened) r in
    (
      h.in_sync, h.ordered.shown_once, h.ordered.own_form, h.ordered.own_dialog,
      h.ordered.one_window,
    )
