-- ===== src/Iocp/Framing.antt =====
-- Whole packets, each behind its length, reach the pool of IOCPTCPServer.cpp one by one.
use instance_message.Base.{
  ℕ, ◌<◌, ◌≤◌, ◌≡◌, refl, ◌∙◌, ap, false, Option, none, some, List, [], ◌∷◌, ◌++◌, Bytes, length,
  int_at, int_bytes, int_at-int_bytes, length-int_bytes, append_assoc, append-nil, arith, two32,
  map,
}
use instance_message.Iocp.Completion.{
  OpType, Arrival, completes, fails, PerIo, TaskData, Net, client_key, max_body_len, on_completion,
}

-- The arrivals for one operation in turn, while it lives. A failure ends the thread: the operation
-- stays as it is, and nothing that comes for it is looked at.
unfoldable pub serve : Net → PerIo → List Arrival → Net × Option PerIo
serve net pio [] = (net, some pio)
serve net pio (fails ∷ more) = (net, some pio)
serve net pio (completes refused received ∷ more) =
    let (net', next) = on_completion refused net pio received in
    elim next [ none ↦ (net', none) | some pio' ↦ serve net' pio' more ]

-- A packet as its sender frames it: the length, then the bytes. No receive is refused.
abbrev pub completions : List Bytes → List Arrival
completions [] = []
completions (m ∷ ms) = completes false (int_bytes (length m)) ∷ completes false m ∷ completions ms

abbrev pub Acceptable : List Bytes → Type 0
Acceptable [] = Unit {0}
Acceptable (m ∷ ms) = (1 ≤ length m) × (length m ≤ max_body_len) × Acceptable ms

abbrev pub task_of : ℕ → Bytes → TaskData
task_of sock m = record { buf = m; len = length m; from = client_key sock }

pub record Ready (pio : PerIo) : Type 0 where
  pub awaits_header : pio.op_type ≡ OpType.op_recv_header
  pub no_body : pio.body_buf ≡ false

-- What serves a header and then its body.
one_packet :
    (net : Net) (pio : PerIo) (m : Bytes)
    → Ready pio
    → 1 ≤ length m
    → length m ≤ max_body_len
    → (pio' : PerIo) × Ready pio'
      × (pio'.sock ≡ pio.sock)
      × ((more : List Arrival)
          → serve net pio (completes false (int_bytes (length m)) ∷ completes false m ∷ more)
            ≡ serve (record net { submitted = net.submitted ++ task_of pio.sock m ∷ [] }) pio' more)
unfolding serve on_completion
one_packet net pio m r lo hi = (
  record pio { op_type = OpType.op_recv_header; wanted = 4; body_len = length m; body_buf = false },
  record { awaits_header = refl; no_body = refl },
  refl,
  λ more. ground (arith, length-int_bytes (length m), header_value (length m) (omega arith)),
)
  where
    header_value : (w : ℕ) → w < two32 → int_at 0 (int_bytes w) ≡ some w
    header_value w h = rw (append-nil (int_bytes w)) at (int_at-int_bytes w [] h)

-- Packets of 1 byte up to 10 MB whose headers and bodies arrive whole, one completion each and
-- no receive refused, become
-- one task each for the pool, in order, with the bytes sent and the client's key; nothing else of
-- the network changes, and the operation awaits the next header.
pub packets_become_tasks :
    (net : Net) (pio : PerIo) (ms : List Bytes)
    → Ready pio
    → Acceptable ms
    → (pio' : PerIo) × Ready pio'
      × (serve net pio (completions ms)
          ≡ (record net { submitted = net.submitted ++ map (task_of pio.sock) ms }, some pio'))
unfolding serve
packets_become_tasks net pio [] r a = (pio, r, ground (arith, append-nil net.submitted))
packets_become_tasks net pio (m ∷ ms) r a =
    let (pio1, r1, s1, e1) = one_packet net pio m r a.0 a.1 in
    let (pio2, r2, e2) =
      packets_become_tasks (record net { submitted = net.submitted ++ task_of pio.sock m ∷ [] })
        pio1 ms r1 a.2 in
    (
      pio2,
      r2,
      e1 (completions ms)
          ∙ e2
          ∙ ground (
            arith,
            ap (λ k. map (task_of k) ms) s1,
            append_assoc net.submitted (task_of pio.sock m ∷ []) (map (task_of pio.sock) ms),
          ),
    )
