-- ===== src/Network/TcpServer.antt =====
-- IMClient/Net/TcpServer.cpp. `recv` is given as for TcpClient.cpp: the bytes of the stream, and the
-- number of bytes that each call has ready.
use Prim.Native.Nat.{min}
use instance_message.Base.{
  ℕ, zero, suc, ◌-◌, Bool, true, false, not, ◌||◌, Option, none, some, List, [], ◌∷◌, ◌++◌, Bytes,
  Map, lookup, put, erase, length, take, drop, ascii, int_bytes, non_negative, if◌then◌else◌, ◌==◌,
}
use instance_message.Network.Sockets.{
  Call, wsa_startup, wsa_cleanup, makes_socket, closes_socket, Answers, thread_call, close_sock,
}
use instance_message.Network.Lifecycle.{stop_thread}
use instance_message.Client.TcpClient.{overwritten}

-- m_sock, m_bRunning, m_listHandle, and m_mapHandidToSocket from thread ids to sockets.
pub record TcpServer : Type 0 where
  pub sock : Option ℕ
  pub running : Bool
  pub list_handle : List ℕ
  pub socket_of : Map ℕ

abbrev pub push_handle : Option ℕ → List ℕ → List ℕ
push_handle none hs = hs
push_handle (some h) hs = hs ++ h ∷ []

-- initNet after a socket is made: `attached` is `bind`.
unfoldable pub listen_on : Answers → TcpServer → ℕ → Bool × TcpServer × List Call
listen_on a n s =
    if not a.attached
    then (false, record n { sock = some s }, wsa_startup ∷ makes_socket s ∷ [])
    else (if not a.listening
        then (false, record n { sock = some s }, wsa_startup ∷ makes_socket s ∷ [])
        else (
          true,
          record n { sock = some s; list_handle = push_handle a.thread n.list_handle },
          wsa_startup ∷ makes_socket s ∷ thread_call a.thread,
        ))

unfoldable pub init_net : Answers → TcpServer → Bool × TcpServer × List Call
unfolding listen_on
init_net a n =
    if not a.startup_ok
    then (false, n, [])
    else (if not a.version_ok then (false, n, wsa_startup ∷ []) else (elim a.socket [
      | none ↦ (false, record n { sock = none }, wsa_startup ∷ [])
      | some s ↦ listen_on a n s
    ]))

-- One round of acceptThread: the client's socket, if `accept` gives one, and the handle and the id
-- of the thread that is started for it.
unfoldable pub accept_client :
    Option ℕ → (thread : Option ℕ) → (hand_id : ℕ) → TcpServer → TcpServer
accept_client none thread hand_id n = n
accept_client (some client) thread hand_id n = record n {
  list_handle = push_handle thread n.list_handle;
  socket_of = put hand_id client n.socket_of;
}

abbrev pub stop_threads : Bool → List ℕ → List Call
stop_threads timed_out [] = []
stop_threads timed_out (h ∷ hs) = stop_thread timed_out (some h) ++ stop_threads timed_out hs

-- An iterator over a map is the key of its element, or `none` at the end.
abbrev pub begin : Map ℕ → Option ℕ
begin [] = none
begin ((k, v) ∷ m) = some k

-- `++it`; `none` is the step from an element that is no longer in the map, which is undefined.
unfoldable pub next_of : ℕ → Map ℕ → Option (Option ℕ)
next_of k [] = none
next_of k ((j, v) ∷ m) = let later = next_of k m in if j == k then some (begin m) else later

-- The loop of unInitNet over m_mapHandidToSocket, from an iterator on: the element is copied, its
-- socket closed and its key erased, and then the iterator goes on. There are as many rounds as the
-- map has elements at first, which an iterator that goes on from element to element never uses up.
unfoldable pub close_clients : ℕ → Option ℕ → Map ℕ → Option (Map ℕ × List Call)
unfolding next_of
close_clients zero it m = some (m, [])
close_clients (suc rounds) none m = some (m, [])
close_clients (suc rounds) (some k) m = elim (lookup k m) [
  | none ↦ none
  | some client ↦
      let erased = erase k m in
      elim (next_of k erased) [
        | none ↦ none
        | some it ↦ elim (close_clients rounds it erased) [
          | none ↦ none
          | some (left, cs) ↦ some (left, closes_socket client ∷ cs)
        ]
      ]
]

-- The network after the loop, with the calls of unInitNet; `none` is a run that is undefined.
abbrev pub with_clients_closed :
    Bool → TcpServer → Option (Map ℕ × List Call) → Option (TcpServer × List Call)
with_clients_closed timed_out n none = none
with_clients_closed timed_out n (some (left, cs)) = some (
  record n { running = false; socket_of = left },
  stop_threads timed_out n.list_handle ++ (close_sock n.sock ++ (cs ++ wsa_cleanup ∷ [])),
)

unfoldable pub un_init_net : Bool → TcpServer → Option (TcpServer × List Call)
unfolding close_clients
un_init_net timed_out n =
    with_clients_closed timed_out n
      (close_clients (length n.socket_of) (begin n.socket_of) n.socket_of)

-- sendData, to the client whose socket is `to`: the result, and what went into its stream.
unfoldable pub send_data : (len_sent data_sent : Bool) → Option Bytes → ℕ → Bool × Bytes
send_data len_sent data_sent none len = (false, [])
send_data len_sent data_sent (some buf) len =
    if not (non_negative len) || len == 0
    then (false, [])
    else (if not len_sent
        then (false, [])
        else (if not data_sent
            then (false, int_bytes len)
            else (true, int_bytes len ++ take len buf)))

-- What recvData does with a packet: it hands it to the mediator and answers its client.
pub data Deed : Type 0 where
  transmits : Bytes → Deed
  replies : Bool × Bytes → Deed

abbrev pub greeting : Bytes
greeting = ascii "This is TcpServer:haha" ++ (0 ∷ [])

-- The inner loop of recvData, `while ( packSize )`.
unfoldable pub recv_body : ℕ → Bytes → Bytes → List ℕ → Bytes × Bytes × List ℕ
recv_body zero got stream sizes = (got, stream, sizes)
recv_body (suc n) got stream [] = (got, stream, [])
recv_body (suc n) got stream (k ∷ sizes) =
    let received = take (min k (suc n)) stream in
    let more =
      recv_body (suc n - length received) (got ++ received) (drop (length received) stream) sizes in
    if length received == 0 then (got, stream, sizes) else more

-- The outer loop, on a socket that is valid; every answer is sent.
unfoldable pub recv_loop : ℕ → ℕ → Bytes → List ℕ → List Deed
unfolding recv_body send_data
recv_loop zero pack_size stream sizes = []
recv_loop (suc rounds) pack_size stream [] = []
recv_loop (suc rounds) pack_size stream (k ∷ sizes) =
    let received = take (min k 4) stream in
    let round = λ (n : ℕ).
      (let (packet, stream', sizes') = recv_body n [] (drop (length received) stream) sizes in
        transmits packet
        ∷ replies (send_data true true (some greeting) 23)
        ∷ recv_loop rounds (n - length packet) stream' sizes') in
    elim (overwritten pack_size received) [
      | none ↦ []
      | some n ↦ if length received == 0 then [] else (if non_negative n then round n else [])
    ]

-- recvData of the thread with an id; a thread that is not in the map has no valid socket, on which
-- `recv` fails.
unfoldable pub recv_data : (thread_id rounds : ℕ) → Bytes → List ℕ → TcpServer → List Deed
unfolding recv_loop
recv_data thread_id rounds stream sizes n = elim (lookup thread_id n.socket_of) [
  | none ↦ []
  | some sock ↦ if sock == 0 then [] else recv_loop rounds 0 stream sizes
]
