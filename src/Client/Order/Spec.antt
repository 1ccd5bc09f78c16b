-- ===== src/Client/Order/Spec.antt =====
-- The order of the list of friends, and what the maps of ckernel.cpp keep of it when they change.
use instance_message.Base.{
  ℕ, suc, ◌+◌, ◌≡◌, refl, sym, ap, ◌∙◌, Bool, true, false, ◌&&◌, Option-cases, inl, inr, none, some,
  List, [], ◌∷◌, ◌++◌, lookup, put, lookup-put, arith, ◌==◌, if◌then◌else◌,
}
use instance_message.Client.State.{FriendForm, ChatDialog, Client}
use instance_message.Client.Received.{put_friend, set_dialog_info}
use instance_message.Client.Sync.{present}

-- How often a friend stands in the list.
abbrev pub count : ℕ → List ℕ → ℕ
count k [] = 0
count k (j ∷ js) = if j == k then suc (count k js) else count k js

abbrev pub one_if : Bool → ℕ
one_if true = 1
one_if false = 0

pub record Ordered (c : Client) : Type 0 where
  pub own_form : (k : ℕ) (f : FriendForm) → lookup k c.forms ≡ some f → f.id ≡ k
  pub own_dialog : (k : ℕ) (d : ChatDialog) → lookup k c.dialogs ≡ some d → d.id ≡ k
  pub shown_once : (k : ℕ) → count k c.layout ≡ one_if (present (lookup k c.forms))
  pub one_window : (c.login_visible && c.list_visible) ≡ false

-- A change of something else.
pub aside-Ordered :
    (c c' : Client)
    → Ordered c
    → c'.forms ≡ c.forms
    → c'.dialogs ≡ c.dialogs
    → c'.layout ≡ c.layout
    → (c'.login_visible && c'.list_visible) ≡ false
    → Ordered c'
aside-Ordered c c' o f d l w = record {
  own_form = λ k x e. o.own_form k x (sym (ap (lookup k) f) ∙ e);
  own_dialog = λ k x e. o.own_dialog k x (sym (ap (lookup k) d) ∙ e);
  shown_once =
      λ k. ap (count k) l ∙ o.shown_once k ∙ ap (λ m. one_if (present (lookup k m))) (sym f);
  one_window = w;
}

count-append : (k j : ℕ) (ks : List ℕ) → count k (ks ++ j ∷ []) ≡ count k ks + one_if (j == k)
count-append k j [] = ground arith
count-append k j (i ∷ ks) = ground (arith, count-append k j ks)

pub form_put-Ordered :
    (k : ℕ) (old new : FriendForm) (c : Client)
    → lookup k c.forms ≡ some old
    → new.id ≡ k
    → Ordered c
    → Ordered (record c { forms = put k new c.forms })
form_put-Ordered k old new c e n o = record {
  own_form = λ j x h. ground (arith, lookup-put k j new c.forms, o.own_form j x);
  own_dialog = o.own_dialog;
  shown_once = λ j. ground (arith, lookup-put k j new c.forms, o.shown_once j, o.shown_once k);
  one_window = o.one_window;
}

pub dialog_put-Ordered :
    (k : ℕ) (new : ChatDialog) (c : Client)
    → new.id ≡ k
    → Ordered c
    → Ordered (record c { dialogs = put k new c.dialogs })
dialog_put-Ordered k new c n o = record {
  own_form = o.own_form;
  own_dialog = λ j x h. ground (arith, lookup-put k j new c.dialogs, o.own_dialog j x);
  shown_once = o.shown_once;
  one_window = o.one_window;
}

new_friend-Ordered :
    (form : FriendForm) (c : Client)
    → lookup form.id c.forms ≡ none
    → Ordered c
    → Ordered (record c {
      layout = c.layout ++ form.id ∷ [];
      forms = put form.id form c.forms;
      dialogs = put form.id (set_dialog_info form.id form.name) c.dialogs;
    })
new_friend-Ordered form c e o = record {
  own_form = λ j x h. ground (arith, lookup-put form.id j form c.forms, o.own_form j x);
  own_dialog = λ j x h.
      ground (
        arith,
        lookup-put form.id j (set_dialog_info form.id form.name) c.dialogs,
        o.own_dialog j x,
      );
  shown_once = λ j. ground (
    arith,
    lookup-put form.id j form c.forms,
    count-append j form.id c.layout,
    o.shown_once j,
    o.shown_once form.id,
  );
  one_window = o.one_window;
}

pub put_friend-Ordered : (form : FriendForm) (c : Client) → Ordered c → Ordered (put_friend form c)
unfolding put_friend
put_friend-Ordered form c o = elim (Option-cases (lookup form.id c.forms)) [
  | inl e ↦ rw (put_friend, e) (new_friend-Ordered form c e o)
  | inr (old, e) ↦ rw (put_friend, e) (form_put-Ordered form.id old form c e refl o)
]
