-- ===== src/Iocp/Completion.antt =====
-- IMServer/IOCPTcpServer/IOCPTCPServer.cpp: `run` for an accepted client, `workerThread` for one
-- completed operation, `postRecvHeader` and `closeClient`. A receive completes with the bytes that
-- it put into its buffer; whether `WSARecv` refuses a new operation at once is an argument.
-- The pool is not being destroyed: `main` destroys it only after `run`, which never returns.
use instance_message.Base.{
  ℕ, ◌*◌, ◌%◌, Bool, true, false, ◌||◌, Option, none, some, List, [], ◌∷◌, ◌++◌, Bytes, Map, length,
  put, erase, int_at, ltb, ◌==◌, if◌then◌else◌, two32,
}

pub data OpType : Type 0 where
  op_recv_header op_recv_body op_send : OpType

-- PER_IO. `body_buf` tells whether a body buffer is allocated; the bytes in it are those of the
-- completion that fills it.
pub record PerIo : Type 0 where
  pub op_type : OpType
  pub sock : ℕ
  pub wanted : ℕ  -- wbuf[0].len
  pub body_len : ℕ
  pub body_buf : Bool
  pub send_only : Bool

pub record TaskData : Type 0 where
  pub buf : Bytes
  pub len : ℕ
  pub from : ℕ

-- m_clients, and what was done to the outside: the tasks handed to the pool and the sockets closed.
pub record Net : Type 0 where
  pub clients : Map ℕ
  pub submitted : List TaskData
  pub closed : List ℕ

-- (unsigned long) sock
abbrev pub client_key : ℕ → ℕ
client_key sock = sock % two32

abbrev pub sizeof_uint32 : ℕ
sizeof_uint32 = 4

abbrev pub max_body_len : ℕ
max_body_len = 10 * 1024 * 1024

unfoldable pub accept_client : ℕ → Net → Net × PerIo
accept_client sock net = (
  record net { clients = put (client_key sock) sock net.clients },
  record {
    op_type = OpType.op_recv_header;
    sock = sock;
    wanted = sizeof_uint32;
    body_len = 0;
    body_buf = false;
    send_only = false;
  },
)

unfoldable pub post_recv_header : PerIo → PerIo
post_recv_header pio = record pio { op_type = OpType.op_recv_header; wanted = sizeof_uint32 }

-- The operation is deleted: `none`.
unfoldable pub close_client : Net → PerIo → Net × Option PerIo
close_client net pio = (
  record net {
    closed = net.closed ++ pio.sock ∷ [];
    clients = erase (client_key pio.sock) net.clients;
  },
  none,
)

-- The operation that receives the body.
abbrev pub receiving : PerIo → ℕ → PerIo
receiving pio body_len = record pio {
  body_len = body_len;
  body_buf = true;
  op_type = OpType.op_recv_body;
  wanted = body_len;
}

-- The header is complete: allocate the body and receive it.
unfoldable pub start_body : Bool → Net → PerIo → ℕ → Net × Option PerIo
unfolding close_client
start_body refused net pio body_len =
    if body_len == 0 || ltb max_body_len body_len
    then close_client net (record pio { body_len = body_len })
    else (if refused
        then close_client net (receiving pio body_len)
        else (net, some (receiving pio body_len)))

unfoldable pub on_header : Bool → Net → PerIo → Bytes → Net × Option PerIo
unfolding start_body
on_header refused net pio received =
    if length received == sizeof_uint32
    then (elim (int_at 0 received) [
      | none ↦ close_client net pio
      | some body_len ↦ start_body refused net pio body_len
    ])
    else close_client net pio

-- The copy of the body for the pool.
abbrev pub task_for : PerIo → Bytes → TaskData
task_for pio received = record { buf = received; len = pio.body_len; from = client_key pio.sock }

unfoldable pub on_body : Net → PerIo → Bytes → Net × Option PerIo
unfolding close_client post_recv_header
on_body net pio received =
    if length received == pio.body_len
    then (
      record net { submitted = net.submitted ++ task_for pio received ∷ [] },
      some (post_recv_header (record pio { body_buf = false })),
    )
    else close_client net pio

unfoldable pub by_type : OpType → Bool → Net → PerIo → Bytes → Net × Option PerIo
unfolding on_header on_body
by_type OpType.op_recv_header refused net pio received = on_header refused net pio received
by_type OpType.op_recv_body refused net pio received = on_body net pio received
by_type OpType.op_send refused net pio received =
    if pio.send_only then (net, none) else (net, some pio)

-- One round of the loop of `workerThread`, for an operation that completed.
unfoldable pub on_completion : Bool → Net → PerIo → Bytes → Net × Option PerIo
unfolding by_type
on_completion refused net pio received =
    if length received == 0
    then close_client net pio
    else by_type pio.op_type refused net pio received

-- What GetQueuedCompletionStatus hands out: a completed operation with its bytes, where `refused` is
-- whether the `WSARecv` that its handling makes fails at once; or its failure, which ends the loop.
pub data Arrival : Type 0 where
  completes : (refused : Bool) → Bytes → Arrival
  fails : Arrival
