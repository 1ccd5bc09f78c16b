-- ===== src/Client/Session/Slots.antt =====
-- The slots of ckernel.cpp and the clicks that end in them keep the windows in order.
use instance_message.Base.{
  ℕ, ◌≡◌, refl, sym, ap, subst, ◌∙◌, Bool, true, false, ◌&&◌, Option, Option-cases, Bool-cases, inl,
  inr, none, some, [], ◌∷◌, ◌++◌, lookup, put, arith, some-injective,
}
use instance_message.Client.State.{QString, Codec, Line, ChatDialog, Client}
use instance_message.Client.Slots.{
  slot_close_process, slot_offlien, slot_show_chat_dialog, slot_send_message, slot_add_friend,
  commit_login, commit_register, remove_spaces, is_empty, on_send_clicked, close_event,
}
use instance_message.Client.Windows.{MenuEntry, slot_triggered, on_icon_clicked}
use instance_message.Client.Keeps.{Keeps}
use instance_message.Client.Sync.{present, InSync, dialog_put-InSync}
use instance_message.Client.Order.{Ordered, aside-Ordered, dialog_put-Ordered}

-- What holds between two events.
pub record Consistent (c : Client) : Type 0 where
  pub in_sync : InSync c
  pub ordered : Ordered c

-- A slot that leaves the forms, the chat windows and the list alone, and shows no window but a chat
-- window.
abbrev Apart : (Client → Option Client) → Type 0
Apart f =
    (c c' : Client)
    → f c ≡ some c'
    → (c'.forms ≡ c.forms)
      × (c'.dialogs ≡ c.dialogs)
      × (c'.layout ≡ c.layout)
      × (c'.login_visible ≡ c.login_visible)
      × (c'.list_visible ≡ c.list_visible)

pub Apart-Stays : (f : Client → Option Client) → Apart f → Keeps Consistent f
Apart-Stays f k c c' h e =
    let (forms, dialogs, layout, login, list) = k c c' e in
    record {
      in_sync = λ id.
          ap (λ m. present (lookup id m)) forms
          ∙ h.in_sync id
          ∙ ap (λ m. present (lookup id m)) (sym dialogs);
      ordered =
          aside-Ordered c c' (h.ordered) forms dialogs layout
            ((λ i. login i && list i) ∙ h.ordered.one_window);
    }

pub commit_login-Apart :
    (codec : Codec) (tel password : QString) → Apart (commit_login codec tel password)
unfolding commit_login
commit_login-Apart codec tel password c c' e = ground arith

pub commit_register-Apart :
    (codec : Codec) (name tel password : QString) → Apart (commit_register codec name tel password)
unfolding commit_register
commit_register-Apart codec name tel password c c' e = ground arith

pub slot_triggered-Apart :
    (codec : Codec) (entry : MenuEntry) (name : QString) → Apart (slot_triggered codec entry name)
unfolding slot_triggered slot_add_friend
slot_triggered-Apart codec MenuEntry.add_friend name c c' e = ground arith
slot_triggered-Apart codec MenuEntry.system_settings name c c' e = ground arith

dialog_put-Consistent :
    (k : ℕ) (old new : ChatDialog) (c : Client)
    → lookup k c.dialogs ≡ some old
    → new.id ≡ old.id
    → Consistent c
    → Consistent (record c { dialogs = put k new c.dialogs })
dialog_put-Consistent k old new c e n h = record {
  in_sync = dialog_put-InSync k old new c e h.in_sync;
  ordered = dialog_put-Ordered k new c (n ∙ h.ordered.own_dialog k old e) h.ordered;
}

show_chat_dialog-Consistent :
    (k : ℕ) (c : Client) → Consistent c → Consistent (slot_show_chat_dialog k c)
unfolding slot_show_chat_dialog
show_chat_dialog-Consistent k c h = elim (Option-cases (lookup k c.dialogs)) [
  | inl e ↦ rw (slot_show_chat_dialog, e) h
  | inr (d, e) ↦
      rw (slot_show_chat_dialog, e)
        (dialog_put-Consistent k d (record d { visible = true }) c e refl h)
]

pub icon_clicked-Consistent : (k : ℕ) (c : Client) → Consistent c → Consistent (on_icon_clicked k c)
unfolding on_icon_clicked
icon_clicked-Consistent k c h = elim (Option-cases (lookup k c.forms)) [
  | inl e ↦ rw (on_icon_clicked, e) h
  | inr (form, e) ↦ rw (on_icon_clicked, e) (show_chat_dialog-Consistent form.id c h)
]

pub close_process-Consistent : (c : Client) → Consistent c → Consistent (slot_close_process c)
unfolding slot_close_process
close_process-Consistent c h = record {
  in_sync = h.in_sync;
  ordered = aside-Ordered c (slot_close_process c) h.ordered refl refl refl refl;
}

pub close_event-Consistent :
    (yes_answer : Bool) (c : Client) → Consistent c → Consistent (close_event yes_answer c)
unfolding close_event slot_offlien slot_close_process
close_event-Consistent true c h = record {
  in_sync = h.in_sync;
  ordered = aside-Ordered c (close_event true c) h.ordered refl refl refl refl;
}
close_event-Consistent false c h = h

send_message-Apart :
    (codec : Codec) (k : ℕ) (content : QString) → Apart (slot_send_message codec k content)
unfolding slot_send_message
send_message-Apart codec k content c c' e = ground arith

sent_from :
    (codec : Codec) (k : ℕ) (html : QString) (m : Option ChatDialog) (c c' : Client)
    → lookup k c.dialogs ≡ m
    → Consistent c
    → (elim m as (λ _. Option Client) [
      | none ↦ some c
      | some d ↦ slot_send_message codec d.id html (record c {
        dialogs = put k (record d { chat = d.chat ++ Line.mine html ∷ [] }) c.dialogs;
      })
    ])
      ≡ some c'
    → Consistent c'
sent_from codec k html none c c' e h r = subst Consistent (some-injective c c' r) h
sent_from codec k html (some d) c c' e h r =
    Apart-Stays (slot_send_message codec d.id html) (send_message-Apart codec d.id html) _ c'
      (dialog_put-Consistent k d (record d { chat = d.chat ++ Line.mine html ∷ [] }) c e refl h) r

pub send_clicked-Stays :
    (codec : Codec) (k : ℕ) (plain html : QString)
    → Keeps Consistent (on_send_clicked codec k plain html)
unfolding on_send_clicked
send_clicked-Stays codec k plain html c c' h r =
    elim (Bool-cases (is_empty (remove_spaces plain))) [
      | inl blank ↦ subst Consistent (some-injective c c' (sym (rw blank refl) ∙ r)) h
      | inr text ↦ sent_from codec k html (lookup k c.dialogs) c c' refl h (sym (rw text refl) ∙ r)
    ]
