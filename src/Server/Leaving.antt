-- ===== src/Server/Leaving.antt =====
-- dealOfflineRq of CKernel.cpp: what a user that leaves causes.
use instance_message.Base.{
  ℕ, ◌≡◌, ◌⊎◌, inl, inr, subst, ◌∙◌, ap, Option, none, some, List, [], ◌∷◌, ◌++◌, Bytes, Map,
  length, lookup, erase, lookup-erase, ◌==◌, int_at, arith, append_assoc, append-nil, if◌then◌else◌,
  true,
}
use instance_message.Text.{sprintf_s}
use instance_message.Text.Decimal.{stoi, length-format_d}
use instance_message.Server.World.{
  MySqlDriver, World, Effect, M, done, pure, close_socket, send_data,
}
use instance_message.Server.MySql.{sql_select}
use instance_message.Server.Sql.{select_friends_offline}
use instance_message.Server.Kernel.Info.{send_if_online}
use instance_message.Server.Kernel.Chat.{forward_to_friends, remove_online, deal_offline_rq}
use instance_message.Server.Frame.{after, Same, Keeps-select}
use instance_message.Server.Chatting.{sent_over, traced, send_data-delivery}

-- The same for a user, if it is online.
abbrev sent_to : Map ℕ → Bytes → Option ℕ → List Effect
sent_to clients buf none = []
sent_to clients buf (some socket) = sent_over buf (lookup socket clients)

abbrev pub delivery : Map ℕ → Map ℕ → Bytes → ℕ → List Effect
delivery online clients buf id = sent_to clients buf (lookup id online)

abbrev pub deliveries : Map ℕ → Map ℕ → Bytes → List ℕ → List Effect
deliveries online clients buf [] = []
deliveries online clients buf (id ∷ ids) =
    delivery online clients buf id ++ deliveries online clients buf ids

abbrev pub closing : Option ℕ → List Effect
closing none = []
closing (some s) = close_socket s ∷ []

-- The texts are the numbers of a column of the database.
abbrev pub Numbers : List Bytes → List ℕ → Type 0
Numbers [] [] = Unit {0}
Numbers [] (id ∷ ids) = ⊥
Numbers (t ∷ ts) [] = ⊥
Numbers (t ∷ ts) (id ∷ ids) = (stoi t ≡ some id) × Numbers ts ids

fits_offline :
    (user : ℕ) → sprintf_s 2048 (select_friends_offline user) ≡ some (select_friends_offline user)
unfolding sprintf_s select_friends_offline
fits_offline user = ground (arith, length-format_d user)

module _ {d : MySqlDriver} where
  pub send_if_online-delivery :
      (id : ℕ) (buf : Bytes) (w : World d)
      → send_if_online id buf (length buf) w
        ≡ done tt (traced w (delivery w.online w.clients buf id))
  unfolding send_if_online
  send_if_online-delivery id buf w = routed (lookup id w.online)
    where
      routed :
          (o : Option ℕ)
          → (elim o as (λ _. M d (Unit {0})) [
            | none ↦ pure tt
            | some s ↦ send_data buf (length buf) s
          ])
              w
            ≡ done tt (traced w (sent_to w.clients buf o))
      routed none = ground (arith, append-nil w.trace)
      routed (some s) = send_data-delivery s buf w

  forward-deliveries :
      (buf : Bytes) (ts : List Bytes) (ids : List ℕ) (w : World d)
      → Numbers ts ids
      → forward_to_friends buf (length buf) ts w
        ≡ done tt (traced w (deliveries w.online w.clients buf ids))
  unfolding forward_to_friends
  forward-deliveries buf [] [] w h = ground (arith, append-nil w.trace)
  forward-deliveries buf [] (id ∷ ids) w h = absurd h
  forward-deliveries buf (t ∷ ts) [] w h = absurd h
  forward-deliveries buf (t ∷ ts) (id ∷ ids) w h = ground (
    arith,
    send_if_online-delivery id buf w,
    forward-deliveries buf ts ids (traced w (delivery w.online w.clients buf id)) h.1,
    append_assoc w.trace (delivery w.online w.clients buf id)
        (deliveries w.online w.clients buf ids),
  )

  remove_online-closing :
      (user : ℕ) (w : World d)
      → let v = record (traced w (closing (lookup user w.online))) {
        online = erase user w.online;
      } in
        (remove_online user w ≡ done tt v)
        ⊎ ((lookup user w.online ≡ none) × (remove_online user w ≡ done tt w))
  unfolding remove_online
  remove_online-closing user w = ground arith

  offline-run :
      (buf : Bytes) (from user : ℕ) (ts : List Bytes) (ids : List ℕ) (w v : World d)
      → int_at 4 buf ≡ some user
      → sql_select (select_friends_offline user) 1 [] w ≡ done (true, ts) v
      → Numbers ts ids
      → deal_offline_rq buf (length buf) from w
        ≡ remove_online user (traced v (deliveries v.online v.clients buf ids))
  unfolding deal_offline_rq
  offline-run buf from user ts ids w v e q h =
      ground (arith, fits_offline user, forward-deliveries buf ts ids v)

  departs :
      (w v : World d) (buf : Bytes) (user : ℕ) (ids : List ℕ)
      → Same w v
      → (u : World d) × (remove_online user (traced v (deliveries v.online v.clients buf ids))
          ≡ done tt u)
        × (u.trace
            ≡ v.trace ++ (deliveries w.online w.clients buf ids ++ closing (lookup user w.online)))
        × ((other : ℕ)
            → lookup other u.online ≡ (if user == other then none else lookup other w.online))
  departs w v buf user ids same =
      elim (remove_online-closing user (traced v (deliveries v.online v.clients buf ids))) [
        | inl r ↦ (
          _,
          r,
          ground (
            arith,
            same.online,
            same.clients,
            append_assoc v.trace (deliveries v.online v.clients buf ids)
                (closing (lookup user v.online)),
          ),
          λ other.
              lookup-erase user other v.online
              ∙ ap (λ m. if user == other then none else lookup other m) same.online,
        )
        | inr (out, r) ↦ (
          _,
          r,
          ground (
            arith,
            same.online,
            same.clients,
            append-nil (deliveries w.online w.clients buf ids),
          ),
          λ other. ground (arith, same.online),
        )
      ]

  -- A user leaves: given the ids of its friends as the database answers them, the request is sent
  -- on unchanged to each friend that is online and connected, in the order of the answer; then the
  -- user's own socket is closed, if it was online; afterwards the user is not online, and every
  -- other user is online as before. The handler returns.
  pub offline_announced :
      (buf : Bytes) (from user : ℕ) (ts : List Bytes) (ids : List ℕ) (w v : World d)
      → int_at 4 buf ≡ some user
      → sql_select (select_friends_offline user) 1 [] w ≡ done (true, ts) v
      → Numbers ts ids
      → (u : World d) × (deal_offline_rq buf (length buf) from w ≡ done tt u)
        × (u.trace
            ≡ v.trace ++ (deliveries w.online w.clients buf ids ++ closing (lookup user w.online)))
        × ((other : ℕ)
            → lookup other u.online ≡ (if user == other then none else lookup other w.online))
  offline_announced buf from user ts ids w v e q h =
      let (u, r, trace, others) = departs w v buf user ids same in
      (u, offline-run buf from user ts ids w v e q h ∙ r, trace, others)
    where
      same : Same w v
      same =
          subst (λ o. Same w (after o)) q ((Keeps-select (select_friends_offline user) 1 []).same w)
