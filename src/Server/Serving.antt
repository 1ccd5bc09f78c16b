-- ===== src/Server/Serving.antt =====
-- What happens at the server one after the other: the packets that the threads of the pool hand to
-- dealData of CKernel.cpp, and the connections that IOCPTCPServer.cpp accepts, serves and closes
-- between them.
mod Examples
mod Lost
use instance_message.Base.{
  ℕ, ◌<◌, ◌≡◌, refl, ◌∙◌, some, List, [], ◌∷◌, ◌++◌, Bytes, int_at, two32, arith, map,
}
use instance_message.Server.World.{
  MySqlDriver, World, close_socket, Outcome, done, stopped, M, pure, ◌>>=◌,
}
use instance_message.Iocp.Completion.{Arrival, PerIo, Net, accept_client}
use instance_message.Iocp.Framing.{serve}
use instance_message.Server.Kernel.Chat.{remove_online}
use instance_message.Server.Kernel.Dispatch.{start_server, handler_table, fun_at, deal_data}
use instance_message.Server.Dispatching.{handler_for, handled_by, dispatch_by_type}
use instance_message.Server.Frame.{
  after, Keeps, Keeps-socket_of, Keeps-select, Keeps-update, Keeps-send_data,
}
use instance_message.Server.Rules.{Rules}
use instance_message.Server.Rules.Kernel.{Obeys-deal_data}

-- What a thread of the pool calls `dealData` with.
pub record Received : Type 0 where
  pub buf : Bytes
  pub len : ℕ
  pub from : ℕ

-- A packet that is handled, a connection that `run` accepts, and what comes from the completion port
-- for an operation of a connection.
pub data Happening : Type 0 where
  packet : Received → Happening
  accepts : (sock : ℕ) → Happening
  arrives : PerIo → Arrival → Happening

-- The clients of the server, for the network.
abbrev pub net_of : {d : MySqlDriver} → World d → Net
net_of w = record { clients = w.clients; submitted = []; closed = [] }

-- What the network comes to, in the world: its clients, and the sockets closed. The packets that it
-- submits are happenings of their own.
abbrev pub with_net : {d : MySqlDriver} → World d → Net → World d
with_net w net = record w { clients = net.clients; trace = w.trace ++ map close_socket net.closed }

unfoldable pub happen : {d : MySqlDriver} → Happening → M d (Unit {0})
happen (packet r) w = deal_data r.buf r.len r.from w
happen (accepts sock) w = done tt (with_net w (accept_client sock (net_of w)).0)
happen (arrives pio a) w = done tt (with_net w (serve (net_of w) pio (a ∷ [])).0)

-- One after the other, until the process ends.
unfoldable pub happen_all : {d : MySqlDriver} → List Happening → M d (Unit {0})
unfolding happen
happen_all [] = pure tt
happen_all (h ∷ hs) = happen h >>= λ _. happen_all hs

-- The table of handlers is that of before.
pub record Serves {d : MySqlDriver} {A : Type 0} (m : M d A) : Type 0 where
  pub table : (w : World d) → (after (m w)).arr_fun ≡ w.arr_fun

module _ {d : MySqlDriver} where
  Keeps-Serves : {A : Type 0} (m : M d A) → Keeps m → Serves m
  Keeps-Serves m k = record { table = λ w. (k.same w).arr_fun }

  bind-table :
      {A B : Type 0} (w : World d) (o : Outcome d A) (f : A → M d B)
      → ((a : A) → Serves (f a))
      → (after (◌>>=◌ (λ _. o) f w)).arr_fun ≡ (after o).arr_fun
  bind-table w (done a v) f k = (k a).table v
  bind-table w (stopped r v) f k = refl

  Serves-bind :
      {A B : Type 0} (m : M d A) (f : A → M d B)
      → Serves m
      → ((a : A) → Serves (f a))
      → Serves (m >>= f)
  Serves-bind m f p k = record { table = λ w. bind-table w (m w) f k ∙ p.table w }

  abbrev serving : Rules d
  serving = record {
    Holds = Serves;
    Small = λ len. Unit {0};
    small = λ len h. tt;
    bind = Serves-bind;
    returns = λ a. record { table = λ w. refl };
    stops = λ why. record { table = λ w. refl };
    finds = λ id. Keeps-Serves _ (Keeps-socket_of id);
    selects = λ sql n lst. Keeps-Serves _ (Keeps-select sql n lst);
    updates = λ sql. Keeps-Serves _ (Keeps-update sql);
    sends = λ p len to h. Keeps-Serves _ (Keeps-send_data p len to);
  }

  Serves-remove_online : (id : ℕ) → Serves (remove_online {d = d} id)
  unfolding remove_online
  Serves-remove_online id = record { table = λ w. ground arith }

  Serves-fun_at : (index : ℕ) → Serves (fun_at {d = d} index)
  Serves-fun_at index = record { table = λ w. ground arith }

  Serves-deal_data : (buf : Bytes) (len from : ℕ) → Serves (deal_data {d = d} buf len from)
  Serves-deal_data buf len from =
      (Obeys-deal_data {r = serving} (λ id from. record { holds = record { table = λ w. refl } })
        (λ id. record { holds = Serves-remove_online id })
        (λ index. record { holds = Serves-fun_at index }) buf len from tt).holds

  Serves-happen : (h : Happening) → Serves (happen {d = d} h)
  unfolding happen
  Serves-happen (packet r) = Serves-deal_data r.buf r.len r.from
  Serves-happen (accepts sock) = record { table = λ w. refl }
  Serves-happen (arrives pio a) = record { table = λ w. refl }

  Serves-happen_all : (hs : List Happening) → Serves (happen_all {d = d} hs)
  unfolding happen_all
  Serves-happen_all [] = record { table = λ w. refl }
  Serves-happen_all (h ∷ hs) = Serves-bind _ _ (Serves-happen h) λ _. Serves-happen_all hs

  -- Whatever has happened at the server since `startServer` made its table of handlers, packets of
  -- any contents, connections accepted, and receives that completed or failed, in any order: the
  -- table is still the one that `startServer` made, and the next packet goes to the handler of its
  -- type and to no other.
  pub served_by_type :
      (hs : List Happening) (w : World d) (buf : Bytes) (len from type : ℕ)
      → int_at 0 buf ≡ some type
      → type < two32
      → let v = after (happen_all hs (after (start_server w))) in
        (v.arr_fun ≡ handler_table)
        × (deal_data buf len from v ≡ handled_by (handler_for type) buf len from v)
  unfolding start_server
  served_by_type hs w buf len from type e small =
      let kept = (Serves-happen_all hs).table (after (start_server w)) in
      (kept, dispatch_by_type buf len from type _ kept e small)
