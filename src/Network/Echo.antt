-- ===== src/Network/Echo.antt =====
-- recvData of TcpServer.cpp against recvData of TcpClient.cpp, and what becomes of the clients that
-- TcpServer accepts.
use Prim.Native.Nat.{min}
use instance_message.Base.{
  ℕ, zero, suc, ◌-◌, ◌≡◌, ◌≢◌, refl, Bool, true, Bool-cases, Option-cases, inl, inr, Option, none,
  some, List, [], ◌∷◌, ◌++◌, Bytes, Map, put, erase, lookup, lookup-put_self, length, take, drop,
  int_bytes, non_negative, ◌==◌, ==_refl, arith, ap, ◌∙◌,
}
use instance_message.Network.TcpServer.{
  TcpServer, Deed, transmits, replies, greeting, recv_body, recv_loop, recv_data, accept_client,
  un_init_net, send_data, begin, next_of, close_clients, with_clients_closed,
}
use instance_message.Client.TcpClient
use instance_message.Client.TcpClient.{overwritten}

-- Each packet handed on, and then the greeting behind its length to the client that sent it.
abbrev pub answered : List Bytes → List Deed
answered [] = []
answered (m ∷ ms) = transmits m ∷ replies (true, int_bytes 23 ++ greeting) ∷ answered ms

bodies_agree :
    (n : ℕ) (got stream : Bytes) (sizes : List ℕ)
    → recv_body n got stream sizes ≡ TcpClient.recv_body n got stream sizes
unfolding recv_body TcpClient.recv_body
bodies_agree zero got stream sizes = refl
bodies_agree (suc n) got stream [] = refl
bodies_agree (suc n) got stream (k ∷ sizes) =
    let received = take (min k (suc n)) stream in
    ground (
      arith,
      bodies_agree (suc n - length received) (got ++ received) (drop (length received) stream)
          sizes,
    )

-- The receiving loops of the two programs take the same packets off a stream, however it is cut;
-- TcpServer answers each with a greeting.
pub server_receives_as_client :
    (rounds pack_size : ℕ) (stream : Bytes) (sizes : List ℕ)
    → recv_loop rounds pack_size stream sizes
      ≡ answered (TcpClient.recv_data rounds pack_size stream sizes)
unfolding recv_loop TcpClient.recv_data send_data
server_receives_as_client zero pack_size stream sizes = refl
server_receives_as_client (suc rounds) pack_size stream [] = refl
server_receives_as_client (suc rounds) pack_size stream (k ∷ sizes) =
    let received = take (min k 4) stream in
    elim (Option-cases (overwritten pack_size received)) [
      | inl e ↦ rw (recv_loop, TcpClient.recv_data, e)
      | inr (n, e) ↦
          let b = bodies_agree n [] (drop (length received) stream) sizes in
          let (packet, stream', sizes') = recv_body n [] (drop (length received) stream) sizes in
          let rest = server_receives_as_client rounds (n - length packet) stream' sizes' in
          elim (Bool-cases (length received == 0)) [
            | inl z ↦ rw (recv_loop, TcpClient.recv_data, e, z)
            | inr nz ↦ elim (Bool-cases (non_negative n)) [
              | inl p ↦ rw (recv_loop, TcpClient.recv_data, e, nz, p, ← b, rest)
              | inr q ↦ rw (recv_loop, TcpClient.recv_data, e, nz, q)
            ]
          ]
    ]

-- A client that TcpServer has accepted is received from by the thread that was started for it.
pub accepted_client_is_received :
    (client hand_id rounds : ℕ) (thread : Option ℕ) (stream : Bytes) (sizes : List ℕ)
    (n : TcpServer)
    → client ≢ 0
    → recv_data hand_id rounds stream sizes (accept_client (some client) thread hand_id n)
      ≡ answered (TcpClient.recv_data rounds 0 stream sizes)
unfolding recv_data accept_client
accepted_client_is_received client hand_id rounds thread stream sizes n ne = ground (
  arith,
  lookup-put_self hand_id client n.socket_of,
  server_receives_as_client rounds 0 stream sizes,
)

put_is_nonempty :
    {A : Type 0} (k : ℕ) (v : A) (m : Map A)
    → (first : ℕ × A) × (rest : Map A) × (put k v m ≡ first ∷ rest)
unfolding put
put_is_nonempty k v [] = ((k, v), [], refl)
put_is_nonempty k v ((j, w) ∷ m) = elim (Bool-cases (j == k)) [
  | inl e ↦ ((k, v), m, rw (e))
  | inr n ↦ ((j, w), put k v m, rw (n))
]

-- The element that was erased is not found again.
next_of-erase : (k : ℕ) (m : Map ℕ) → next_of k (erase k m) ≡ none
unfolding next_of erase
next_of-erase k [] = refl
next_of-erase k ((j, v) ∷ m) = ground (arith, next_of-erase k m)

-- The loop over a map with an element ends in its first round, by the step to the next element.
no_second_round :
    (k sock : ℕ) (rest : Map ℕ)
    → close_clients (length ((k, sock) ∷ rest)) (begin ((k, sock) ∷ rest)) ((k, sock) ∷ rest) ≡ none
unfolding close_clients lookup
no_second_round k sock rest =
    rw (close_clients, lookup, ==_refl k, next_of-erase k ((k, sock) ∷ rest)) refl

-- A TcpServer that has ever accepted a client cannot be closed, however many it has: the loop over
-- its sockets erases the element that its iterator stands on, and then takes that iterator one
-- further, which is undefined.
pub accepted_client_breaks_closing :
    (client hand_id : ℕ) (thread : Option ℕ) (timed_out : Bool) (n : TcpServer)
    → un_init_net timed_out (accept_client (some client) thread hand_id n) ≡ none
unfolding un_init_net accept_client
accepted_client_breaks_closing client hand_id thread timed_out n =
    let ((k, sock), rest, e) = put_is_nonempty hand_id client n.socket_of in
    ap (with_clients_closed timed_out (accept_client (some client) thread hand_id n))
      (ap (λ m. close_clients (length m) (begin m) m) e ∙ no_second_round k sock rest)
