-- ===== src/Server/Frame.antt =====
-- What a computation of the server leaves alone: a rule for each way in which the handlers of
-- CKernel.cpp are put together, and the frames of the operations that they share.
use instance_message.Base.{
  ℕ, ◌≡◌, refl, ap, not, ◌∙◌, Bool, true, false, Option, none, some, List, Bytes, arith,
}
use instance_message.Protocol.Messages.{UserInfo}
use instance_message.Server.Rules.{Rules, Obeys-get_info_by_id, Obeys-get_user_info_and_friend_info}
use instance_message.Server.World.{
  MySqlDriver, World, Stop, Outcome, done, stopped, M, pure, stop, or_stop, ◌>>=◌, socket_of,
  send_data,
}
use instance_message.Server.MySql.{select_my_sql, update_my_sql}
use instance_message.Server.Kernel.Info.{get_info_by_id, get_user_info_and_friend_info}

-- The world in which a computation ends or stops.
abbrev pub after : {d : MySqlDriver} {A : Type 0} → Outcome d A → World d
after (done a w) = w
after (stopped r w) = w

-- The same users are online, through the same table of handlers and the same clients.
pub record Same {d : MySqlDriver} (w v : World d) : Type 0 where
  pub online : v.online ≡ w.online
  pub arr_fun : v.arr_fun ≡ w.arr_fun
  pub clients : v.clients ≡ w.clients

pub record Keeps {d : MySqlDriver} {A : Type 0} (m : M d A) : Type 0 where
  pub same : (w : World d) → Same w (after (m w))

module _ {d : MySqlDriver} where
  pub Same-refl : (w : World d) → Same w w
  Same-refl w = record { online = refl; arr_fun = refl; clients = refl }

  pub Same-trans : {u v w : World d} → Same u v → Same v w → Same u w
  Same-trans p q = record {
    online = q.online ∙ p.online;
    arr_fun = q.arr_fun ∙ p.arr_fun;
    clients = q.clients ∙ p.clients;
  }

  -- What follows a computation runs in the world that it leaves.
  after-bind :
      {A B : Type 0} (w : World d) (o : Outcome d A) (f : A → M d B)
      → Same w (after o)
      → ((a : A) → Keeps (f a))
      → Same w (after (◌>>=◌ (λ _. o) f w))
  after-bind w (done a v) f s k = Same-trans s ((k a).same v)
  after-bind w (stopped r v) f s k = s

  -- Where a bind ends: where its first part stops, or where the rest ends.
  pub after-cases :
      {A B : Type 0} (P : World d → Type 0) (m : M d A) (f : A → M d B) (w : World d)
      → ((r : Stop) (v : World d) → m w ≡ stopped r v → P v)
      → ((a : A) (v : World d) → m w ≡ done a v → P (after (f a v)))
      → P (after ((m >>= f) w))
  after-cases {A = A} P m f w p q = go (m w) p q
    where
      go :
          (o : Outcome d A)
          → ((r : Stop) (v : World d) → o ≡ stopped r v → P v)
          → ((a : A) (v : World d) → o ≡ done a v → P (after (f a v)))
          → P (after (◌>>=◌ (λ _. o) f w))
      go (done a v) p q = q a v refl
      go (stopped r v) p q = p r v refl

  -- One step of a handler: what its first part returns is handed on.
  pub bind-done :
      {A B : Type 0} (m : M d A) (f : A → M d B) {w v : World d} {a : A}
      → m w ≡ done a v
      → (m >>= f) w ≡ f a v
  bind-done {A} {B} m f e =
      ap (λ o. elim o as (λ _. Outcome d B) [ done a v ↦ f a v | stopped r v ↦ stopped r v ]) e

  pub or_stop-done :
      {A : Type 0} (r : Stop) {o : Option A} {a : A} (w : World d)
      → o ≡ some a
      → or_stop r o w ≡ done a w
  or_stop-done r w e = ap (λ o. or_stop r o w) e

  pub update-done :
      (sql : Bytes) (failed : Bool) (w : World d)
      → (d.mysql_query w.db sql).1 ≡ failed
      → update_my_sql (some sql) w
        ≡ done (not failed) (record w { db = (d.mysql_query w.db sql).0 })
  unfolding update_my_sql
  update-done sql true w e = rw e
  update-done sql false w e = rw e

  pub Keeps-bind :
      {A B : Type 0} (m : M d A) (f : A → M d B)
      → Keeps m
      → ((a : A) → Keeps (f a))
      → Keeps (m >>= f)
  Keeps-bind m f p k = record { same = λ w. after-bind w (m w) f (p.same w) k }

  pub Keeps-pure : {A : Type 0} (a : A) → Keeps (pure {d = d} a)
  Keeps-pure a = record { same = Same-refl }

  pub Keeps-stop : (A : Type 0) (r : Stop) → Keeps (stop {d = d} {A = A} r)
  Keeps-stop A r = record { same = Same-refl }

  pub Keeps-socket_of : (id : ℕ) → Keeps (socket_of {d = d} id)
  Keeps-socket_of id = record { same = Same-refl }

  pub Keeps-send_data : (p : Bytes) (len to : ℕ) → Keeps (send_data {d = d} p len to)
  unfolding send_data
  Keeps-send_data p len to = record { same = λ w. ground arith }

  pub Keeps-select :
      (sql : Bytes) (n : ℕ) (lst : List Bytes) → Keeps (select_my_sql {d = d} sql n lst)
  unfolding select_my_sql
  Keeps-select sql n lst = record { same = λ w. ground arith }

  pub Keeps-update : (sql : Option Bytes) → Keeps (update_my_sql {d = d} sql)
  unfolding update_my_sql
  Keeps-update none = record { same = Same-refl }
  Keeps-update (some sql) = record { same = λ w. ground arith }

  -- Leaving the users, the table and the clients alone, as a property of handlers.
  abbrev pub keeping : Rules d
  keeping = record {
    Holds = Keeps;
    Small = λ len. Unit {0};
    small = λ len h. tt;
    bind = Keeps-bind;
    returns = Keeps-pure;
    stops = Keeps-stop _;
    finds = Keeps-socket_of;
    selects = Keeps-select;
    updates = Keeps-update;
    sends = λ p len to h. Keeps-send_data p len to;
  }

  pub Keeps-get_info_by_id : (id : ℕ) (info : UserInfo) → Keeps (get_info_by_id {d = d} id info)
  Keeps-get_info_by_id id info = (Obeys-get_info_by_id {r = keeping} id info).holds

  -- No user comes online or goes offline by being told of its friends.
  pub Keeps-get_user_info_and_friend_info :
      (id : ℕ) → Keeps (get_user_info_and_friend_info {d = d} id)
  Keeps-get_user_info_and_friend_info id =
      (Obeys-get_user_info_and_friend_info {r = keeping} id).holds
