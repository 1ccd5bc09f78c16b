-- ===== src/Network/Udp.antt =====
-- IMClient/Net/Udp.cpp. `recvfrom` is given as its results in turn: a datagram with its sender, or a
-- failure, which is also the answer to a datagram longer than the buffer of 8 KB.
use instance_message.Base.{
  ℕ, ◌≡◌, refl, ◌≤◌, arith, Bool, false, not, ◌||◌, Option, none, some, List, [], ◌∷◌, ◌++◌, Bytes,
  map, length, take, non_negative, if◌then◌else◌, ◌==◌,
}
use instance_message.Network.Sockets.{Call, wsa_startup, wsa_cleanup, INet, Answers, close_sock}
use instance_message.Network.Lifecycle.{Opened, attach, stop_thread}

-- initNet, where `attached` is `bind`.
unfoldable pub init_net : Answers → INet → Opened
init_net a n =
    if not a.startup_ok
    then (false, n, [])
    else (if not a.version_ok then (false, n, wsa_startup ∷ []) else (elim a.socket [
      | none ↦ (false, record n { sock = none }, wsa_startup ∷ [])
      | some s ↦ attach a n s
    ]))

unfoldable pub un_init_net : Bool → INet → INet × List Call
un_init_net timed_out n = elim n.handle [
  | none ↦ (n, close_sock n.sock ++ wsa_cleanup ∷ [])
  | some h ↦ (
    record n { running = false; handle = none },
    stop_thread timed_out (some h) ++ (close_sock n.sock ++ wsa_cleanup ∷ []),
  )
]

pub record Datagram : Type 0 where
  pub body : Bytes
  pub address : ℕ

-- sendData: the result, and the datagram handed to `sendto`, if it is; `none` is a null pointer.
unfoldable pub send_data : (sent : Bool) → Option Bytes → (len to : ℕ) → Bool × Option Datagram
send_data sent none len to = (false, none)
send_data sent (some buf) len to =
    if not (non_negative len) || len == 0
    then (false, none)
    else (sent, some (record { body = take len buf; address = to }))

-- recvData: what is handed to the mediator, in order.
unfoldable pub recv_data : List (Option Datagram) → List Datagram
recv_data [] = []
recv_data (none ∷ more) = []
recv_data (some g ∷ more) = let rest = recv_data more in if length g.body == 0 then [] else g ∷ rest

abbrev pub NotEmpty : List Datagram → Type 0
NotEmpty [] = Unit {0}
NotEmpty (g ∷ gs) = (1 ≤ length g.body) × NotEmpty gs

-- Datagrams with a body are handed on as they come, up to the first that is empty: whatever is
-- received after that one is lost, so any sender can stop the receiver.
pub empty_datagram_stops_receiver :
    (gs : List Datagram) (address : ℕ) (more : List (Option Datagram))
    → NotEmpty gs
    → recv_data (map some gs ++ (some (record { body = []; address = address }) ∷ more)) ≡ gs
unfolding recv_data
empty_datagram_stops_receiver [] address more h = refl
empty_datagram_stops_receiver (g ∷ gs) address more h =
    ground (arith, empty_datagram_stops_receiver gs address more h.1)
