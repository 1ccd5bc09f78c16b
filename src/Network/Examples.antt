-- ===== src/Network/Examples.antt =====
-- The theorems on the networks of the client at concrete sockets, threads and streams.
use instance_message.Base.{
  ◌≡◌, refl, arith, true, false, none, some, [], ◌∷◌, ◌++◌, Bytes, List, int_bytes,
}
use instance_message.Network.Sockets.{Call, Answers, new_inet, made, closed, started, cleaned}
use instance_message.Network.Lifecycle.{init_net, un_init_net}
use instance_message.Network.Closing.{IsBalanced, close_once_balances}
use instance_message.Network.Mediators.{tcp_client, new_mediator, open_net, close_process_net}
use instance_message.Network.Twice.{is_tcp_client, owner_closes_twice}
use instance_message.Network.Udp.{Datagram, empty_datagram_stops_receiver}
use instance_message.Network.Udp
use instance_message.Network.TcpServer.{TcpServer, recv_loop, accept_client}
use instance_message.Network.TcpServer
use instance_message.Network.Echo.{
  answered, server_receives_as_client, accepted_client_is_received, accepted_client_breaks_closing,
}
use instance_message.Client.TcpClient

abbrev all_well : Answers
all_well = record {
  startup_ok = true;
  version_ok = true;
  socket = some 7;
  attached = true;
  listening = true;
  thread = some 40;
}

close_once_balances_example :
    let (ok, n, cs) = init_net all_well new_inet in IsBalanced (cs ++ (un_init_net true n).1)
unfolding init_net
close_once_balances_example =
    close_once_balances all_well new_inet (init_net all_well new_inet).1
      (init_net all_well new_inet).2 true refl (λ e. absurd (ground arith))

owner_closes_twice_example :
    let (ok, m, cs) = open_net tcp_client all_well (new_mediator tcp_client) in
    (made 7 cs ≡ 1)
    × (started cs ≡ 1)
    × ((ds : List Call) × (close_process_net tcp_client false true m ≡ some ds)
        × (closed 7 ds ≡ 2)
        × (cleaned ds ≡ 2))
unfolding open_net init_net new_mediator
owner_closes_twice_example =
    owner_closes_twice tcp_client all_well
      (open_net tcp_client all_well (new_mediator tcp_client)).1
      (open_net tcp_client all_well (new_mediator tcp_client)).2 7 false true is_tcp_client refl
      refl (λ e. absurd (ground arith))

abbrev hello : Datagram
hello = record { body = 104 ∷ 105 ∷ []; address = 9 }

empty_datagram_stops_receiver_example :
    Udp.recv_data (some hello ∷ some (record { body = []; address = 3 }) ∷ some hello ∷ [])
    ≡ hello ∷ []
empty_datagram_stops_receiver_example =
    empty_datagram_stops_receiver (hello ∷ []) 3 (some hello ∷ []) (ground arith, tt)

-- A packet of three bytes that arrives in pieces of two.
abbrev stream : Bytes
stream = int_bytes 3 ++ (5 ∷ 6 ∷ 7 ∷ [])

server_receives_as_client_example :
    recv_loop 2 0 stream (4 ∷ 2 ∷ 2 ∷ [])
    ≡ answered (TcpClient.recv_data 2 0 stream (4 ∷ 2 ∷ 2 ∷ []))
server_receives_as_client_example = server_receives_as_client 2 0 stream (4 ∷ 2 ∷ 2 ∷ [])

abbrev idle : TcpServer
idle = record { sock = some 5; running = true; list_handle = []; socket_of = [] }

accepted_client_is_received_example :
    TcpServer.recv_data 11 2 stream (4 ∷ 2 ∷ 2 ∷ []) (accept_client (some 6) (some 50) 11 idle)
    ≡ answered (TcpClient.recv_data 2 0 stream (4 ∷ 2 ∷ 2 ∷ []))
accepted_client_is_received_example =
    accepted_client_is_received 6 11 2 (some 50) stream (4 ∷ 2 ∷ 2 ∷ []) idle
      (λ e. absurd (ground arith))

accepted_client_breaks_closing_example :
    TcpServer.un_init_net false (accept_client (some 6) (some 50) 11 idle) ≡ none
accepted_client_breaks_closing_example = accepted_client_breaks_closing 6 11 (some 50) false idle
