-- ===== src/Server/Framed.antt =====
-- Every handler of CKernel.cpp hands whole packets to `WSASend`, each behind its length.
use instance_message.Base.{
  get_elem?, ◌≤◌, take, ℕ, ◌^◌, ◌<◌, ◌≡◌, refl, Option, none, some, List, [], ◌∷◌, ◌++◌, Bytes,
  lookup, length, length-take, int_bytes, leb, leb→le, Bool-cases, Option-cases, inl, inr, arith,
}
use instance_message.Server.Kernel.Chat.{remove_online}
use instance_message.Server.Kernel.Dispatch.{fun_at, deal_data}
use instance_message.Server.Rules.{Rules}
use instance_message.Server.Rules.Kernel.{Obeys-deal_data}
use instance_message.Server.World.{
  MySqlDriver, World, Effect, wsa_send, close_socket, Stop, Outcome, done, stopped, M, pure, stop,
  ◌>>=◌, socket_of, send_data,
}
use instance_message.Server.MySql.{select_my_sql, update_my_sql}
use instance_message.Server.Frame.{after}

-- A length of less than 2 ^ 31, and as many bytes.
abbrev pub IsPacket : Bytes → Type 0
IsPacket b = (m : Bytes) × (length m < 2 ^ 31) × (b ≡ int_bytes (length m) ++ m)

abbrev pub Framed : List Effect → Type 0
Framed [] = Unit {0}
Framed (wsa_send s b ∷ es) = IsPacket b × Framed es
Framed (close_socket s ∷ es) = Framed es

pub Framed-append : (es fs : List Effect) → Framed es → Framed fs → Framed (es ++ fs)
Framed-append [] fs h k = k
Framed-append (wsa_send s b ∷ es) fs h k = (h.0, Framed-append es fs h.1 k)
Framed-append (close_socket s ∷ es) fs h k = Framed-append es fs h k

pub record Frames {d : MySqlDriver} {A : Type 0} (m : M d A) : Type 0 where
  pub framed : (w : World d) → Framed w.trace → Framed (after (m w)).trace

module _ {d : MySqlDriver} where
  after-bind :
      {A B : Type 0} (w : World d) (o : Outcome d A) (f : A → M d B)
      → Framed (after o).trace
      → ((a : A) → Frames (f a))
      → Framed (after (◌>>=◌ (λ _. o) f w)).trace
  after-bind w (done a v) f s k = (k a).framed v s
  after-bind w (stopped r v) f s k = s

  pub Frames-bind :
      {A B : Type 0} (m : M d A) (f : A → M d B)
      → Frames m
      → ((a : A) → Frames (f a))
      → Frames (m >>= f)
  Frames-bind m f p k = record { framed = λ w h. after-bind w (m w) f (p.framed w h) k }

  pub Frames-pure : {A : Type 0} (a : A) → Frames (pure {d = d} a)
  Frames-pure a = record { framed = λ w h. h }

  Frames-stop : (A : Type 0) (r : Stop) → Frames (stop {d = d} {A = A} r)
  Frames-stop A r = record { framed = λ w h. h }

  Frames-socket_of : (id : ℕ) → Frames (socket_of {d = d} id)
  Frames-socket_of id = record { framed = λ w h. h }

  Frames-select :
      (sql : Bytes) (n : ℕ) (lst : List Bytes) → Frames (select_my_sql {d = d} sql n lst)
  unfolding select_my_sql
  Frames-select sql n lst = record { framed = λ w h. ground arith }

  Frames-update : (sql : Option Bytes) → Frames (update_my_sql {d = d} sql)
  unfolding update_my_sql
  Frames-update none = record { framed = λ w h. h }
  Frames-update (some sql) = record { framed = λ w h. ground arith }

  -- A socket call put at the end of the trace.
  with_packet :
      (w : World d) (s len : ℕ) (p : Bytes)
      → Framed w.trace
      → len < 2 ^ 31
      → len ≤ length p
      → Framed (w.trace ++ wsa_send s (int_bytes len ++ take len p) ∷ [])
  with_packet w s len p h small fits =
      let size : length (take len p) ≡ len = omega (arith, length-take len p) in
      Framed-append w.trace _ h ((take len p, rw size small, rw size refl), tt)

  Frames-send_data : (p : Bytes) (len to : ℕ) → len < 2 ^ 31 → Frames (send_data {d = d} p len to)
  unfolding send_data
  Frames-send_data p len to small = record {
    framed = λ w h. elim (Option-cases (lookup to w.clients)) [
      | inl e ↦ rw (e, Framed) h
      | inr (s, e) ↦ elim (Bool-cases (leb len (length p))) [
        | inl fits ↦
            rw (e, fits, Framed) (with_packet w s len p h small (leb→le len (length p) fits))
        | inr long ↦ rw (e, long, Framed) h
      ]
    ];
  }

  abbrev framing : Rules d
  framing = record {
    Holds = Frames;
    Small = λ len. len < 2 ^ 31;
    small = λ len h. omega arith;
    bind = Frames-bind;
    returns = Frames-pure;
    stops = Frames-stop _;
    finds = Frames-socket_of;
    selects = Frames-select;
    updates = Frames-update;
    sends = Frames-send_data;
  }

  Frames-remove_online : (id : ℕ) → Frames (remove_online {d = d} id)
  unfolding remove_online
  Frames-remove_online id = record {
    framed = λ w h. elim (Option-cases (lookup id w.online)) [
      | inl e ↦ rw (e, Framed) h
      | inr (s, e) ↦ rw (e, Framed) (Framed-append w.trace (close_socket s ∷ []) h tt)
    ];
  }

  Frames-fun_at : (index : ℕ) → Frames (fun_at {d = d} index)
  Frames-fun_at index = record {
    framed = λ w h. elim (Option-cases (get_elem? w.arr_fun index)) [
      | inl e ↦ rw (e, Framed) h
      | inr (entry, e) ↦ rw (e, Framed) h
    ];
  }

  -- Whatever packet of less than 2 GB the kernel handles, and however the handler ends, every
  -- `WSASend` so far was of a whole packet behind its length if all before the packet were.
  pub Frames-deal_data :
      (buf : Bytes) (len from : ℕ) → len < 2 ^ 31 → Frames (deal_data {d = d} buf len from)
  Frames-deal_data buf len from small =
      (Obeys-deal_data {r = framing} (λ id from. record { holds = record { framed = λ w h. h } })
        (λ id. record { holds = Frames-remove_online id })
        (λ index. record { holds = Frames-fun_at index }) buf len from small).holds
