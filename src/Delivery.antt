-- ===== src/Delivery.antt =====
-- From sendData of IMServer/IOCPTcpServer/IOCPTCPServer.cpp, as the handlers of IMServer/CKernel.cpp
-- call it, to recvData of IMClient/Net/TcpClient.cpp: the bytes that the calls of `WSASend` put on
-- one socket, in the order of the calls.
mod Examples
use instance_message.Base.{
  ℕ, ◌^◌, ◌<◌, ◌≡◌, refl, ap, ◌∙◌, Bool-cases, inl, inr, List, [], ◌∷◌, ◌++◌, map, Bytes, length,
  drop, int_bytes, if◌then◌else◌, ◌==◌,
}
use instance_message.Server.World.{MySqlDriver, World, Effect, wsa_send, close_socket}
use instance_message.Server.Serving.{
  Happening, packet, accepts, arrives, net_of, with_net, happen, happen_all,
}
use instance_message.Iocp.Completion.{Net, accept_client}
use instance_message.Iocp.Framing.{serve}
use instance_message.Server.Frame.{after}
use instance_message.Server.Framed.{
  IsPacket, Framed, Framed-append, Frames, Frames-bind, Frames-pure, Frames-deal_data,
}
use instance_message.Client.TcpClient.{recv_data}
use instance_message.Client.Reassembly.{Cut, calls, stream_of, packets_reassembled}

-- The packets are of less than 2 GB.
abbrev pub IsShort : Happening → Type 0
IsShort (packet r) = r.len < 2 ^ 31
IsShort (accepts sock) = Unit {0}
IsShort (arrives pio a) = Unit {0}

abbrev pub Short : List Happening → Type 0
Short [] = Unit {0}
Short (h ∷ hs) = IsShort h × Short hs

-- The bytes sent on a socket, and the packets without their lengths.
abbrev pub stream_to : ℕ → List Effect → Bytes
stream_to s [] = []
stream_to s (wsa_send t b ∷ es) = if t == s then b ++ stream_to s es else stream_to s es
stream_to s (close_socket t ∷ es) = stream_to s es

abbrev pub packets_to : ℕ → List Effect → List Bytes
packets_to s [] = []
packets_to s (wsa_send t b ∷ es) = if t == s then drop 4 b ∷ packets_to s es else packets_to s es
packets_to s (close_socket t ∷ es) = packets_to s es

packet_stream :
    (b rest : Bytes) → IsPacket b → b ++ rest ≡ int_bytes (length (drop 4 b)) ++ (drop 4 b ++ rest)
unfolding int_bytes
packet_stream b rest (m, small, e) = rw e refl

stream-Framed :
    (s : ℕ) (es : List Effect) → Framed es → stream_to s es ≡ stream_of (packets_to s es)
stream-Framed s [] h = refl
stream-Framed s (close_socket t ∷ es) h = stream-Framed s es h
stream-Framed s (wsa_send t b ∷ es) h = elim (Bool-cases (t == s)) [
  | inl e ↦ rw e (ap (◌++◌ b) (stream-Framed s es h.1) ∙ packet_stream b _ h.0)
  | inr e ↦ rw e (stream-Framed s es h.1)
]

-- The socket calls by the time that all has happened, or that the process ends.
abbrev pub sent_by : {d : MySqlDriver} → List Happening → World d → List Effect
sent_by hs w = (after (happen_all hs w)).trace

closes-Framed : (socks : List ℕ) → Framed (map close_socket socks)
closes-Framed [] = tt
closes-Framed (s ∷ socks) = closes-Framed socks

module _ {d : MySqlDriver} where
  with_net-Framed : (w : World d) (n : Net) → Framed w.trace → Framed (with_net w n).trace
  with_net-Framed w n h = Framed-append w.trace _ h (closes-Framed n.closed)

  Frames-happen : (h : Happening) → IsShort h → Frames (happen {d = d} h)
  unfolding happen
  Frames-happen (packet r) k = Frames-deal_data r.buf r.len r.from k
  Frames-happen (accepts sock) k = record {
    framed = λ w h. with_net-Framed w (accept_client sock (net_of w)).0 h;
  }
  Frames-happen (arrives pio a) k = record {
    framed = λ w h. with_net-Framed w (serve (net_of w) pio (a ∷ [])).0 h;
  }

  Frames-happen_all : (hs : List Happening) → Short hs → Frames (happen_all {d = d} hs)
  unfolding happen_all
  Frames-happen_all [] h = Frames-pure tt
  Frames-happen_all (h ∷ hs) k = Frames-bind _ _ (Frames-happen h k.0) λ _. Frames-happen_all hs k.1

  -- Whatever packets of less than 2 GB the server has handled since it was started, whatever
  -- connections it has accepted and closed between them, and however the last handler ended, the
  -- bytes that it has sent on a socket are whole packets, which the client at the other end hands on
  -- one by one and in order, however the network cuts their bodies, as long as each length arrives
  -- in one call. A socket is a number: one that is closed and made again counts as the same.
  pub client_reads_server :
      (hs : List Happening) (w : World d) (s rounds old : ℕ) (kss : List (List ℕ))
      → Short hs
      → w.trace ≡ []
      → length (packets_to s (sent_by hs w)) < rounds
      → Cut (packets_to s (sent_by hs w)) kss
      → recv_data rounds old (stream_to s (sent_by hs w)) (calls kss) ≡ packets_to s (sent_by hs w)
  client_reads_server hs w s rounds old kss small start enough cut =
      ap (λ b. recv_data rounds old b (calls kss))
        (stream-Framed s (sent_by hs w) ((Frames-happen_all hs small).framed w (rw start tt)))
      ∙ packets_reassembled rounds old _ kss enough cut
