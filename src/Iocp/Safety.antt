-- ===== src/Iocp/Safety.antt =====
-- What every operation of IOCPTCPServer.cpp keeps, whatever arrives.
use instance_message.Base.{
  ℕ, ◌≤◌, ◌≡◌, refl, ◌⊎◌, inl, inr, Bool, true, false, Option, none, some, [], ◌∷◌, ◌++◌, Bytes,
  length, erase, arith, Bool-cases, ◌==◌, ◌||◌, ltb, int_at, if◌then◌else◌,
}
use instance_message.Iocp.Completion.{
  OpType, PerIo, TaskData, Net, client_key, max_body_len, sizeof_uint32, on_completion,
  close_client, receiving, start_body, on_header, task_for, on_body, by_type,
}

-- A body buffer is allocated exactly while a body is awaited, with the length announced, and the
-- receive asks for that many bytes, or for the four of a header.
pub record IsValid (pio : PerIo) : Type 0 where
  pub receives : pio.send_only ≡ false
  pub shape :
      ((pio.op_type ≡ OpType.op_recv_header)
        × (pio.body_buf ≡ false)
        × (pio.wanted ≡ sizeof_uint32))
      ⊎ ((pio.op_type ≡ OpType.op_recv_body)
          × (pio.body_buf ≡ true)
          × (pio.wanted ≡ pio.body_len)
          × (1 ≤ pio.body_len)
          × (pio.body_len ≤ max_body_len))

abbrev pub TaskFits : TaskData → Type 0
TaskFits t = (length t.buf ≡ t.len) × (1 ≤ t.len) × (t.len ≤ max_body_len)

-- What a completion of a receive does, in three cases: nothing to the network, a task to the pool,
-- or the end of the connection.
abbrev pub Completed : Net → PerIo → Net → Option PerIo → Type 0
Completed net pio net' none = net' ≡ record net {
  closed = net.closed ++ pio.sock ∷ [];
  clients = erase (client_key pio.sock) net.clients;
}
Completed net pio net' (some pio') =
    IsValid pio'
    × (pio'.sock ≡ pio.sock)
    × ((net' ≡ net)
        ⊎ ((t : TaskData) × TaskFits t
            × (t.from ≡ client_key pio.sock)
            × (net' ≡ record net { submitted = net.submitted ++ t ∷ [] })))

on_header-Completed :
    (refused : Bool) (net : Net) (pio : PerIo) (received : Bytes)
    → pio.send_only ≡ false
    → Completed net pio
        (on_header refused net pio received).0
        (on_header refused net pio received).1
unfolding on_header
on_header-Completed refused net pio received v =
    elim (Bool-cases (length received == sizeof_uint32)) [
      | inl four ↦ rw four (value (int_at 0 received))
      | inr other ↦ rw other
    ]
  where
    started :
        (body_len : ℕ)
        → Completed net pio
            (start_body refused net pio body_len).0
            (start_body refused net pio body_len).1
    started body_len = elim (Bool-cases (body_len == 0 || ltb max_body_len body_len)) [
      | inl bad ↦ rw bad
      | inr good ↦ rw good (begun good refused)
    ]
      where
        begun :
            (body_len == 0 || ltb max_body_len body_len) ≡ false
            → (r : Bool)
            → let x =
                if r
                then close_client net (receiving pio body_len)
                else (net, some (receiving pio body_len)) in
              Completed net pio x.0 x.1
        begun g true = refl
        begun g false = (
          record { receives = v; shape = inr (refl, refl, refl, ground arith, ground arith) },
          refl,
          inl refl,
        )

    value :
        (o : Option ℕ)
        → let x = (elim o as (λ _. Net × Option PerIo) [
          | none ↦ close_client net pio
          | some body_len ↦ start_body refused net pio body_len
        ]) in
          Completed net pio x.0 x.1
    value none = refl
    value (some body_len) = started body_len

on_body-Completed :
    (net : Net) (pio : PerIo) (received : Bytes)
    → pio.send_only ≡ false
    → 1 ≤ pio.body_len
    → pio.body_len ≤ max_body_len
    → Completed net pio (on_body net pio received).0 (on_body net pio received).1
unfolding on_body
on_body-Completed net pio received v lo hi = elim (Bool-cases (length received == pio.body_len)) [
  | inl whole ↦ rw whole (
    record { receives = v; shape = inl (refl, refl, refl) },
    refl,
    inr (task_for pio received, (ground arith, lo, hi), refl, refl),
  )
  | inr part ↦ rw part
]

by_type-Completed :
    (op : OpType) (refused : Bool) (net : Net) (pio : PerIo) (received : Bytes)
    → pio.op_type ≡ op
    → IsValid pio
    → Completed net pio
        (by_type op refused net pio received).0
        (by_type op refused net pio received).1
unfolding by_type
by_type-Completed OpType.op_recv_header refused net pio received e v =
    on_header-Completed refused net pio received v.receives
by_type-Completed OpType.op_recv_body refused net pio received e v =
    on_body-Completed net pio received v.receives (ground arith) (ground arith)
by_type-Completed OpType.op_send refused net pio received e v = absurd (ground arith)

-- Whatever bytes a receive completes with, and whether or not the next one is refused: either the
-- operation lives on, valid and for the same socket, and the network is unchanged or has one new
-- task of 1 byte up to 10 MB whose length is that of its bytes; or it is deleted, its socket is
-- closed and the client is forgotten, and nothing else changes.
pub completion_safe :
    (refused : Bool) (net : Net) (pio : PerIo) (received : Bytes)
    → IsValid pio
    → let r = on_completion refused net pio received in Completed net pio r.0 r.1
unfolding on_completion
completion_safe refused net pio received v = elim (Bool-cases (length received == 0)) [
  | inl closed ↦ rw closed
  | inr more ↦ rw more (by_type-Completed pio.op_type refused net pio received refl v)
]
