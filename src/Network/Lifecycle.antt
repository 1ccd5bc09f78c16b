-- ===== src/Network/Lifecycle.antt =====
-- initNet and unInitNet of IMClient/Net/TcpClient.cpp, and the mediator that owns the network,
-- IMClient/Mediator/TcpClientMediator.cpp.
use instance_message.Base.{
  ℕ, Bool, true, false, not, Option, none, some, List, [], ◌∷◌, ◌++◌, if◌then◌else◌,
}
use instance_message.Network.Sockets.{
  Call, wsa_startup, wsa_cleanup, makes_socket, waits_for, terminates, closes_handle, INet, Answers,
  thread_call, close_sock,
}

-- The result of `initNet`, the network, and the calls that took something.
abbrev pub Opened : Type 0
Opened = Bool × INet × List Call

abbrev pub attach : Answers → INet → ℕ → Opened
attach a n s =
    if a.attached
    then (
      true,
      record n { sock = some s; handle = a.thread },
      wsa_startup ∷ makes_socket s ∷ thread_call a.thread,
    )
    else (false, record n { sock = some s }, wsa_startup ∷ makes_socket s ∷ [])

-- TcpClient::initNet, where `attached` is `connect`.
unfoldable pub init_net : Answers → INet → Opened
init_net a n =
    if not a.startup_ok
    then (false, n, [])
    else (if not a.version_ok then (false, n, wsa_startup ∷ []) else (elim a.socket [
      | none ↦ (false, record n { sock = none }, wsa_startup ∷ [])
      | some s ↦ attach a n s
    ]))

abbrev pub stop_thread : Bool → Option ℕ → List Call
stop_thread timed_out h =
    waits_for h ∷ ((if timed_out then terminates h ∷ [] else []) ++ closes_handle h ∷ [])

-- TcpClient::unInitNet; `timed_out` is whether the receiving thread is still there after the wait.
unfoldable pub un_init_net : Bool → INet → INet × List Call
un_init_net timed_out n = (
  record n { running = false; handle = none },
  stop_thread timed_out n.handle ++ (close_sock n.sock ++ wsa_cleanup ∷ []),
)
