-- ===== src/Server/Rules.antt =====
-- What holds of every handler of CKernel.cpp that is built from the operations of its monad: a
-- property of computations, with a rule for each operation, and the rules that follow for
-- getInfoById, getUserInfoAndFriendInfo and, in Handlers, for the handlers.
pub mod Handlers
pub mod Kernel
use instance_message.Base.{
  ℕ, ◌<◌, Bool, true, false, Option, none, some, List, [], ◌∷◌, Bytes, arith, if◌then◌else◌,
}
use instance_message.Text.{strcpy_s, sprintf_s}
use instance_message.Text.Decimal.{stoi}
use instance_message.Protocol.Messages.{UserInfo, new_user_info}
use instance_message.Server.World.{
  MySqlDriver, M, Stop, exit_called, invalid_parameter, pure, stop, or_stop, ◌>>=◌, socket_of,
  send_data,
}
use instance_message.Server.MySql.{select_my_sql, update_my_sql}
use instance_message.Server.Sql.{select_info, select_friends}
use instance_message.Server.Kernel.Info.{
  status_of, fill_info, get_info_by_id, send_if_online, send_friend_infos, send_infos,
  get_user_info_and_friend_info,
}

-- `Small` is what a length handed to `sendData` has to satisfy; the packets that the server makes
-- itself are shorter than 200 bytes.
pub record Rules (d : MySqlDriver) : Type 1 where
  pub Holds : {A : Type 0} → M d A → Type 0
  pub Small : ℕ → Type 0
  pub small : (len : ℕ) → len < 200 → Small len
  pub bind :
      {A B : Type 0} (m : M d A) (f : A → M d B)
      → Holds m
      → ((a : A) → Holds (f a))
      → Holds (m >>= f)
  pub returns : {A : Type 0} (a : A) → Holds (pure {d = d} a)
  pub stops : {A : Type 0} (r : Stop) → Holds (stop {d = d} {A = A} r)
  pub finds : (id : ℕ) → Holds (socket_of {d = d} id)
  pub selects : (sql : Bytes) (n : ℕ) (lst : List Bytes) → Holds (select_my_sql {d = d} sql n lst)
  pub updates : (sql : Option Bytes) → Holds (update_my_sql {d = d} sql)
  pub sends : (p : Bytes) (len to : ℕ) → Small len → Holds (send_data {d = d} p len to)

pub record Obeys {d : MySqlDriver} (r : Rules d) {A : Type 0} (m : M d A) : Type 0 where
  pub holds : r.Holds m

module _ {d : MySqlDriver} {r : Rules d} where
  pub Obeys-bind :
      {A B : Type 0} (m : M d A) (f : A → M d B)
      → Obeys r m
      → ((a : A) → Obeys r (f a))
      → Obeys r (m >>= f)
  Obeys-bind m f p k = record { holds = r.bind m f p.holds (λ a. (k a).holds) }

  pub Obeys-pure : {A : Type 0} (a : A) → Obeys r (pure {d = d} a)
  Obeys-pure a = record { holds = r.returns a }

  pub Obeys-stop : {A : Type 0} (why : Stop) → Obeys r (stop {d = d} {A = A} why)
  Obeys-stop why = record { holds = r.stops why }

  pub Obeys-socket_of : (id : ℕ) → Obeys r (socket_of {d = d} id)
  Obeys-socket_of id = record { holds = r.finds id }

  pub Obeys-select :
      (sql : Bytes) (n : ℕ) (lst : List Bytes) → Obeys r (select_my_sql {d = d} sql n lst)
  Obeys-select sql n lst = record { holds = r.selects sql n lst }

  pub Obeys-update : (sql : Option Bytes) → Obeys r (update_my_sql {d = d} sql)
  Obeys-update sql = record { holds = r.updates sql }

  pub Obeys-send_data :
      (p : Bytes) (len to : ℕ) → r.Small len → Obeys r (send_data {d = d} p len to)
  Obeys-send_data p len to h = record { holds = r.sends p len to h }

  pub Obeys-if :
      {A : Type 0} (b : Bool) (m n : M d A) → Obeys r m → Obeys r n → Obeys r (if b then m else n)
  Obeys-if true m n p q = p
  Obeys-if false m n p q = q

  pub Obeys-option :
      {A B : Type 0} (o : Option A) (m : M d B) (f : A → M d B)
      → Obeys r m
      → ((a : A) → Obeys r (f a))
      → Obeys r (elim o [ none ↦ m | some a ↦ f a ])
  Obeys-option none m f p k = p
  Obeys-option (some a) m f p k = k a

  pub Obeys-list :
      {A B : Type 0} (l : List A) (m : M d B) (f : A → List A → M d B)
      → Obeys r m
      → ((a : A) (rest : List A) → Obeys r (f a rest))
      → Obeys r (elim l [ [] ↦ m | a ∷ rest ↦ f a rest ])
  Obeys-list [] m f p k = p
  Obeys-list (a ∷ rest) m f p k = k a rest

  pub Obeys-or_stop : {A : Type 0} (why : Stop) (o : Option A) → Obeys r (or_stop {d = d} why o)
  Obeys-or_stop why none = Obeys-stop why
  Obeys-or_stop why (some a) = Obeys-pure a

  Obeys-fill_info : (info : UserInfo) (l : List Bytes) → Obeys r (fill_info info l)
  unfolding fill_info
  Obeys-fill_info info (name ∷ feeling ∷ icon ∷ []) =
      Obeys-bind _ _ (Obeys-or_stop _ (strcpy_s info.name name)) λ a.
        Obeys-bind _ _ (Obeys-or_stop _ (strcpy_s info.feeling feeling))
          λ b. Obeys-bind _ _ (Obeys-or_stop _ (stoi icon)) λ c. Obeys-pure _
  Obeys-fill_info info [] = Obeys-pure info
  Obeys-fill_info info _ = Obeys-pure info

  pub Obeys-get_info_by_id : (id : ℕ) (info : UserInfo) → Obeys r (get_info_by_id id info)
  unfolding get_info_by_id
  Obeys-get_info_by_id id info = Obeys-bind _ _ (Obeys-socket_of id) λ socket.
      let stamped = record info { id = id; status = status_of socket } in
      Obeys-bind _ _ (Obeys-or_stop invalid_parameter (sprintf_s 8192 (select_info id))) λ sql.
        Obeys-bind _ _ (Obeys-select sql 3 [])
          λ answer. Obeys-if answer.0 _ _ (Obeys-fill_info stamped answer.1) (Obeys-pure stamped)

  pub Obeys-send_if_online :
      (id : ℕ) (p : Bytes) (len : ℕ) → r.Small len → Obeys r (send_if_online id p len)
  unfolding send_if_online
  Obeys-send_if_online id p len h =
      Obeys-bind _ _ (Obeys-socket_of id)
        λ o. Obeys-option o _ _ (Obeys-pure tt) λ s. Obeys-send_data p len s h

  Obeys-send_friend_infos :
      (id : ℕ) (user info : UserInfo) (l : List Bytes) → Obeys r (send_friend_infos id user info l)
  unfolding send_friend_infos
  Obeys-send_friend_infos id user info [] = Obeys-pure tt
  Obeys-send_friend_infos id user info (s ∷ rest) =
      Obeys-bind _ _ (Obeys-or_stop _ (stoi s)) λ friend.
        Obeys-bind _ _ (Obeys-get_info_by_id friend info) λ i.
          Obeys-bind _ _ (Obeys-send_if_online id _ 136 (r.small 136 (omega arith))) λ _.
            Obeys-bind _ _ (Obeys-send_if_online friend _ 136 (r.small 136 (omega arith)))
              λ _. Obeys-send_friend_infos id user i rest

  Obeys-send_infos : (id : ℕ) (user : UserInfo) (s : ℕ) → Obeys r (send_infos id user s)
  unfolding send_infos
  Obeys-send_infos id user s =
      Obeys-bind _ _ (Obeys-send_data _ 136 s (r.small 136 (omega arith))) λ _.
        Obeys-bind _ _ (Obeys-or_stop _ (sprintf_s 8192 (select_friends id))) λ sql.
          Obeys-bind _ _ (Obeys-select sql 1 []) λ answer.
            Obeys-if answer.0 _ _ (Obeys-send_friend_infos id user new_user_info answer.1)
              (Obeys-pure tt)

  pub Obeys-get_user_info_and_friend_info : (id : ℕ) → Obeys r (get_user_info_and_friend_info id)
  unfolding get_user_info_and_friend_info
  Obeys-get_user_info_and_friend_info id =
      Obeys-bind _ _ (Obeys-get_info_by_id id new_user_info) λ user.
        Obeys-bind _ _ (Obeys-socket_of id)
          λ o. Obeys-option o _ _ (Obeys-stop exit_called) λ s. Obeys-send_infos id user s
