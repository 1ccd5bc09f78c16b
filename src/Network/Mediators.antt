-- ===== src/Network/Mediators.antt =====
-- IMClient/Mediator: the three mediators own a network each and do the same with it, so they are one
-- model over the interface of IMClient/Net/INet.h. The forwarding of data is a call of the network,
-- or a signal.
use instance_message.Base.{Bool, true, false, Option, none, some, List, [], ◌++◌}
use instance_message.Network.Sockets.{Call, INet, new_inet, Answers}
use instance_message.Network.Lifecycle
use instance_message.Network.Udp
use instance_message.Network.TcpServer

-- INet: the network of a class, as its constructor makes it, with initNet and unInitNet, where
-- `none` is undefined behaviour.
pub record NetClass : Type 1 where
  pub Net : Type 0
  pub new_net : Net
  pub init_net : Answers → Net → Bool × Net × List Call
  pub un_init_net : (timed_out : Bool) → Net → Option (Net × List Call)

-- The classes that derive from INet.
abbrev pub tcp_client : NetClass
tcp_client = record {
  Net = INet;
  new_net = new_inet;
  init_net = Lifecycle.init_net;
  un_init_net = λ timed_out n. some (Lifecycle.un_init_net timed_out n);
}

abbrev pub udp : NetClass
udp = record {
  Net = INet;
  new_net = new_inet;
  init_net = Udp.init_net;
  un_init_net = λ timed_out n. some (Udp.un_init_net timed_out n);
}

abbrev pub tcp_server : NetClass
tcp_server = record {
  Net = TcpServer.TcpServer;
  new_net = record { sock = none; running = true; list_handle = []; socket_of = [] };
  init_net = TcpServer.init_net;
  un_init_net = TcpServer.un_init_net;
}

module _ (k : NetClass) where
  -- INetMediator, with its network as long as it has one.
  pub record Mediator : Type 0 where
    pub net : Option k.Net

  -- The constructor, openNet and closeNet.
  unfoldable pub new_mediator : Mediator
  new_mediator = record { net = some k.new_net }

  unfoldable pub open_net : Answers → Mediator → Bool × Mediator × List Call
  open_net a m = elim m.net [
    | none ↦ (false, m, [])
    | some n ↦ (let (ok, n', cs) = k.init_net a n in (ok, record { net = some n' }, cs))
  ]

  unfoldable pub close_net : Bool → Mediator → Option (Mediator × List Call)
  close_net timed_out m = elim m.net [
    | none ↦ some (m, [])
    | some n ↦ elim (k.un_init_net timed_out n) [
      | none ↦ none
      | some (n', cs) ↦ some (record { net = some n' }, cs)
    ]
  ]

  -- The destructor closes the network once more.
  unfoldable pub destroy : Bool → Mediator → Option (List Call)
  destroy timed_out m = elim m.net [
    | none ↦ some []
    | some n ↦ elim (k.un_init_net timed_out n) [ none ↦ none | some (n', cs) ↦ some cs ]
  ]

  -- The network part of `slot_closeProcess` of ckernel.cpp, and of its destructor: closeNet, then
  -- `delete m_pMediator`.
  unfoldable pub close_process_net : (first second : Bool) → Mediator → Option (List Call)
  unfolding close_net destroy
  close_process_net first second m = elim (close_net first m) [
    | none ↦ none
    | some (m', cs) ↦ elim (destroy second m') [ none ↦ none | some ds ↦ some (cs ++ ds) ]
  ]
