-- ===== src/Network/Twice.antt =====
-- What the mediators of IMClient/Mediator close when the client ends.
mod Spec
mod Classes
use Spec.{Closes, closed-append, cleaned-append}
use Classes.{tcp_client-Closes, tcp_server-Closes, udp-Closes}
use instance_message.Base.{
  ℕ, ◌≡◌, ◌≢◌, refl, sym, ap, subst, Bool, true, some, List, ◌++◌, ◌+◌, arith,
}
use instance_message.Network.Sockets.{Call, Answers, made, closed, started, cleaned}
use instance_message.Network.Mediators.{
  NetClass, tcp_client, udp, tcp_server, Mediator, new_mediator, open_net, close_process_net,
}

-- The three classes of networks that the mediators own.
pub data Class : NetClass → Type 1 where
  is_tcp_client : Class tcp_client
  is_tcp_server : Class tcp_server
  is_udp : Class udp

closing : (k : NetClass) → Class k → Closes k
closing _ is_tcp_client = tcp_client-Closes
closing _ is_tcp_server = tcp_server-Closes
closing _ is_udp = udp-Closes

module _ (k : NetClass) where
  opened_net :
      (a : Answers) (m : Mediator k) (cs : List Call)
      → open_net k a (new_mediator k) ≡ (true, m, cs)
      → (n : k.Net) × (m ≡ record { net = some n }) × (k.init_net a k.new_net ≡ (true, n, cs))
  unfolding open_net new_mediator
  opened_net a m cs h = (
    (k.init_net a k.new_net).1,
    sym (ap (λ (x : Bool × Mediator k × List Call). x.1) h),
    λ i. ((h i).0, (k.init_net a k.new_net).1, (h i).2),
  )

  closed_twice :
      (law : Closes k) (s : ℕ) (n : k.Net) (first second : Bool)
      → law.Knows s n
      → s ≢ 0
      → (ds : List Call) × (close_process_net k first second (record { net = some n }) ≡ some ds)
        × (closed s ds ≡ 2)
        × (cleaned ds ≡ 2)
  unfolding close_process_net
  closed_twice law s n first second h ne =
      let (n', ds, ran, kept, c, l) = law.closes s n first h ne in
      let (n'', ds', ran', _, c', l') = law.closes s n' second kept ne in
      (
        ds ++ ds',
        rw (close_process_net, ran, ran') refl,
        omega (arith, closed-append s ds ds'),
        omega (arith, cleaned-append ds ds'),
      )

-- Each mediator closes its network twice when it is first closed and then deleted, as the client
-- does at its end with that of TcpClient. Over a network of one of the three classes that was
-- opened, which made one socket and started the library once: the socket is closed twice, and the
-- library is cleaned up twice. A TcpServer is taken to have accepted nobody.
pub owner_closes_twice :
    (k : NetClass) (a : Answers) (m : Mediator k) (cs : List Call) (s : ℕ) (first second : Bool)
    → Class k
    → open_net k a (new_mediator k) ≡ (true, m, cs)
    → a.socket ≡ some s
    → s ≢ 0
    → (made s cs ≡ 1)
      × (started cs ≡ 1)
      × ((ds : List Call) × (close_process_net k first second m ≡ some ds)
          × (closed s ds ≡ 2)
          × (cleaned ds ≡ 2))
owner_closes_twice k a m cs s first second is_class h e ne =
    let law = closing k is_class in
    let (n, same, init) = opened_net k a m cs h in
    let (knows, once, begun) = law.opens a n cs s init e in
    (
      once,
      begun,
      subst
          (λ x.
            (ds : List Call) × (close_process_net k first second x ≡ some ds)
            × (closed s ds ≡ 2)
            × (cleaned ds ≡ 2))
          (sym same) (closed_twice k law s n first second knows ne),
    )
