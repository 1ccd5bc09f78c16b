-- ===== src/Network/Twice/Classes.antt =====
-- TcpClient, Udp and TcpServer of IMClient/Net each give their socket back whenever they are closed.
use instance_message.Base.{
  ℕ, ◌≡◌, ◌≢◌, refl, sym, ap, ◌∙◌, subst, Bool, true, false, Option, none, some, List, [], ◌∷◌,
  ◌++◌, Map, arith,
}
use instance_message.Network.Sockets.{
  Call, wsa_startup, makes_socket, thread_call, INet, new_inet, Answers, made, closed, started,
  cleaned,
}
use instance_message.Network.Lifecycle.{stop_thread}
use instance_message.Network.Lifecycle
use instance_message.Network.Closing.{opened}
use instance_message.Network.Udp
use instance_message.Network.TcpServer
use instance_message.Network.TcpServer.{stop_threads}
use instance_message.Network.Twice.Spec.{Closes, last, last_lem, stops_only, took}
use instance_message.Network.Mediators.{tcp_client, udp, tcp_server}

client_opens :
    (a : Answers) (n n' : INet) (cs : List Call) (s : ℕ)
    → Lifecycle.init_net a n ≡ (true, n', cs)
    → a.socket ≡ some s
    → (n'.sock ≡ some s) × (made s cs ≡ 1) × (started cs ≡ 1)
client_opens a n n' cs s h e =
    let (t, at, net, calls) = opened a n n' cs h in
    let same : t ≡ s = ground arith in
    let (m, b) =
      took s a.thread cs
        (calls ∙ ap (λ x. wsa_startup ∷ makes_socket x ∷ thread_call a.thread) same) in
    (ground arith, m, b)

udp_as_client : (a : Answers) (n : INet) → Udp.init_net a n ≡ Lifecycle.init_net a n
unfolding Udp.init_net Lifecycle.init_net
udp_as_client a n = refl

pub tcp_client-Closes : Closes tcp_client
unfolding Lifecycle.un_init_net
tcp_client-Closes = record {
  Knows = λ s n. n.sock ≡ some s;
  opens = λ a n cs s h e. client_opens a new_inet n cs s h e;
  closes = λ s n timed_out h ne.
      let (c, l) = stops_only s timed_out n.handle (last n.sock) in
      let (c', l') = last_lem s n.sock h ne in (_, _, refl, h, c ∙ c', l ∙ l');
}

udp_closes :
    (s : ℕ) (sock handle : Option ℕ) (running timed_out : Bool)
    → sock ≡ some s
    → s ≢ 0
    → let (n, ds) =
        Udp.un_init_net timed_out (record { sock = sock; running = running; handle = handle }) in
      (n.sock ≡ some s) × (closed s ds ≡ 1) × (cleaned ds ≡ 1)
unfolding Udp.un_init_net
udp_closes s sock none running timed_out h ne = let (c, l) = last_lem s sock h ne in (h, c, l)
udp_closes s sock (some t) running timed_out h ne =
    let (c, l) = stops_only s timed_out (some t) (last sock) in
    let (c', l') = last_lem s sock h ne in (h, c ∙ c', l ∙ l')

pub udp-Closes : Closes udp
udp-Closes = record {
  Knows = λ s n. n.sock ≡ some s;
  opens = λ a n cs s h e. client_opens a new_inet n cs s (sym (udp_as_client a new_inet) ∙ h) e;
  closes = λ s n timed_out h ne.
      let (k, c, l) = udp_closes s n.sock n.handle n.running timed_out h ne in
      (_, _, refl, k, c, l);
}

server_opens :
    (a : Answers) (n : TcpServer.TcpServer) (cs : List Call) (s : ℕ)
    → TcpServer.init_net a tcp_server.new_net ≡ (true, n, cs)
    → a.socket ≡ some s
    → (n.sock ≡ some s)
      × (n.socket_of ≡ [])
      × (cs ≡ wsa_startup ∷ makes_socket s ∷ thread_call a.thread)
unfolding TcpServer.init_net
server_opens a n cs s h e = (ground arith, ground arith, ground arith)

server_stops :
    (s : ℕ) (timed_out : Bool) (hs : List ℕ) (ds : List Call)
    → (closed s (stop_threads timed_out hs ++ ds) ≡ closed s ds)
      × (cleaned (stop_threads timed_out hs ++ ds) ≡ cleaned ds)
server_stops s timed_out [] ds = (refl, refl)
server_stops s true (h ∷ hs) ds = server_stops s true hs ds
server_stops s false (h ∷ hs) ds = server_stops s false hs ds

server_closes :
    (s : ℕ) (sock : Option ℕ) (running timed_out : Bool) (handles : List ℕ)
    → sock ≡ some s
    → s ≢ 0
    → (n : TcpServer.TcpServer) × (ds : List Call) × (TcpServer.un_init_net timed_out
          (record { sock = sock; running = running; list_handle = handles; socket_of = [] })
        ≡ some (n, ds))
      × ((n.sock ≡ some s) × (n.socket_of ≡ []))
      × (closed s ds ≡ 1)
      × (cleaned ds ≡ 1)
unfolding TcpServer.un_init_net
server_closes s sock running timed_out handles h ne =
    let (c, l) = server_stops s timed_out handles (last sock) in
    let (c', l') = last_lem s sock h ne in (_, _, refl, (h, refl), c ∙ c', l ∙ l')

pub tcp_server-Closes : Closes tcp_server
tcp_server-Closes = record {
  Knows = λ s n. (n.sock ≡ some s) × (n.socket_of ≡ []);
  opens = λ a n cs s h e.
      let (sock, clients, calls) = server_opens a n cs s h e in
      let (m, b) = took s a.thread cs calls in ((sock, clients), m, b);
  closes = λ s n timed_out h ne.
      subst
        (λ (m : Map ℕ).
          (n' : TcpServer.TcpServer) × (ds : List Call) × (TcpServer.un_init_net timed_out
              (record n { socket_of = m })
            ≡ some (n', ds))
          × ((n'.sock ≡ some s) × (n'.socket_of ≡ []))
          × (closed s ds ≡ 1)
          × (cleaned ds ≡ 1))
        (sym h.1) (server_closes s n.sock n.running timed_out n.list_handle h.0 ne);
}
