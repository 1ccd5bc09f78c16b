-- ===== src/Upload.antt =====
-- From sendData of IMClient/Net/TcpClient.cpp, as the slots of IMClient/ckernel.cpp call it, to the
-- tasks that workerThread of IMServer/IOCPTcpServer/IOCPTCPServer.cpp submits. Each `WSARecv`
-- completes with the bytes that it asks for, as long as there are as many.
mod Examples
use instance_message.Base.{
  ℕ, zero, suc, ◌+◌, ◌*◌, ◌≤◌, ◌≡◌, refl, ◌∙◌, ap, true, false, Option, none, some, List, [], ◌∷◌,
  ◌++◌, Bytes, length, take, drop, int_at, int_bytes, int_at-int_bytes, append_assoc, append-nil,
  take-length, drop-length, take_all, arith, map,
}
use instance_message.Client.TcpClient.{send_data}
use instance_message.Iocp.Completion.{OpType, PerIo, Net, max_body_len, on_completion}
use instance_message.Iocp.Framing.{Acceptable, task_of}

-- What the client puts into its stream, one call of sendData after the other.
unfoldable pub uploaded : List Bytes → Bytes
unfolding send_data
uploaded [] = []
uploaded (m ∷ ms) = (send_data true true (some m) (length m)).1 ++ uploaded ms

-- Completions of one operation over a stream, at most as many as the first argument says; the
-- result is the network, the operation if it lives, and the rest of the stream.
unfoldable pub serve_stream : ℕ → Net → PerIo → Bytes → Net × Option PerIo × Bytes
serve_stream zero net pio stream = (net, some pio, stream)
serve_stream (suc n) net pio stream =
    let (net', next) = on_completion false net pio (take pio.wanted stream) in
    elim next [
      | none ↦ (net', none, drop pio.wanted stream)
      | some pio' ↦ serve_stream n net' pio' (drop pio.wanted stream)
    ]

-- The operation waits for the four bytes of a header, as `postRecvHeader` leaves it.
pub record Waiting (pio : PerIo) : Type 0 where
  pub awaits_header : pio.op_type ≡ OpType.op_recv_header
  pub no_body : pio.body_buf ≡ false
  pub wants_header : pio.wanted ≡ 4

-- The operation after a packet.
abbrev after_packet : PerIo → Bytes → PerIo
after_packet pio m = record pio {
  op_type = OpType.op_recv_header;
  wanted = 4;
  body_len = length m;
  body_buf = false;
}

one_upload :
    (n : ℕ) (net : Net) (pio : PerIo) (m rest : Bytes)
    → Waiting pio
    → 1 ≤ length m
    → length m ≤ max_body_len
    → serve_stream (suc (suc n)) net pio (int_bytes (length m) ++ (m ++ rest))
      ≡ serve_stream n
          (record net { submitted = net.submitted ++ task_of pio.sock m ∷ [] })
          (after_packet pio m)
          rest
unfolding serve_stream on_completion int_bytes
one_upload n net pio m rest r lo hi = ground (
  arith,
  r.wants_header,
  r.awaits_header,
  r.no_body,
  value,
  take-length (length m) m rest refl,
  drop-length (length m) m rest refl,
)
  where
    value : int_at 0 (int_bytes (length m) ++ []) ≡ some (length m)
    value = int_at-int_bytes (length m) [] (omega arith)

sent_whole :
    (m : Bytes)
    → 1 ≤ length m
    → length m ≤ max_body_len
    → (send_data true true (some m) (length m)).1 ≡ int_bytes (length m) ++ m
unfolding send_data
sent_whole m lo hi = ground (arith, take_all (length m) m)

-- Packets of 1 byte up to 10 MB that the client sends one after the other come out of the server's
-- network as tasks with the same bytes, in the same order, under the client's key, with nothing left
-- of the stream: two completions for each packet are enough. Each receive is taken to complete with
-- all the bytes that it asks for, and none is refused. Nothing else of the network changes, and the
-- operation waits for the next packet.
pub uploads_become_tasks :
    (net : Net) (pio : PerIo) (ms : List Bytes)
    → Waiting pio
    → Acceptable ms
    → (pio' : PerIo) × Waiting pio'
      × (serve_stream (2 * length ms) net pio (uploaded ms)
          ≡ (record net { submitted = net.submitted ++ map (task_of pio.sock) ms }, some pio', []))
unfolding uploaded serve_stream
uploads_become_tasks net pio [] r a = (pio, r, ground (arith, append-nil net.submitted))
uploads_become_tasks net pio (m ∷ ms) r a =
    let next = after_packet pio m in
    let net' = record net { submitted = net.submitted ++ task_of pio.sock m ∷ [] } in
    let (pio', r', e) =
      uploads_become_tasks net' next ms
        (record { awaits_header = refl; no_body = refl; wants_header = refl }) a.2 in
    let count : 2 * suc (length ms) ≡ suc (suc (2 * length ms)) = omega arith in
    let framed = sent_whole m a.0 a.1 in
    let split = append_assoc (int_bytes (length m)) m (uploaded ms) in
    let handed_on =
      append_assoc net.submitted (task_of pio.sock m ∷ []) (map (task_of pio.sock) ms) in
    (
      pio',
      r',
      ap (λ b. serve_stream (2 * suc (length ms)) net pio (b ++ uploaded ms)) framed
          ∙ (λ i. serve_stream (count i) net pio (split i))
          ∙ one_upload (2 * length ms) net pio m (uploaded ms) r a.0 a.1
          ∙ e
          ∙ ap (λ tasks. (record net { submitted = tasks }, some pio', [])) handed_on,
    )
