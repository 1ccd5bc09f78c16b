-- ===== src/Iocp/Examples.antt =====
-- The theorems on IOCPTCPServer.cpp at one accepted client.
use instance_message.Base.{
  ◌≡◌, refl, inl, true, false, List, [], ◌∷◌, ◌++◌, Bytes, map, int_bytes, arith,
}
use instance_message.Iocp.Completion.{
  OpType, Arrival, completes, PerIo, Net, accept_client, on_completion,
}
use instance_message.Iocp.Framing.{Acceptable, serve, task_of}
use instance_message.Iocp.Life.{Stands, AllBytes, Brings, announces, connection_is_packets}
use instance_message.Iocp.Safety.{Completed, completion_safe}

abbrev empty_net : Net
empty_net = record { clients = []; submitted = []; closed = [] }

abbrev new_client : PerIo
new_client = record {
  op_type = OpType.op_recv_header;
  sock = 5;
  wanted = 4;
  body_len = 0;
  body_buf = false;
  send_only = false;
}

accepted_client : (accept_client 5 empty_net).1 ≡ new_client
unfolding accept_client
accepted_client = refl

-- Two bytes where a header of four is awaited.
completion_safe_example :
    let r = on_completion false empty_net new_client (9 ∷ 0 ∷ []) in
    Completed empty_net new_client r.0 r.1
completion_safe_example =
    completion_safe false empty_net new_client (9 ∷ 0 ∷ [])
      (record { receives = refl; shape = inl (refl, refl, refl) })

-- A packet of two bytes, then a header behind which the receive of the body is refused, and bytes
-- that come too late.
abbrev arrived : List Arrival
arrived =
    completes false (announces 2)
    ∷ completes false (1 ∷ 2 ∷ [])
    ∷ completes true (announces 3)
    ∷ completes false (7 ∷ 8 ∷ 9 ∷ [])
    ∷ []

arrived-AllBytes : AllBytes arrived
unfolding int_bytes
arrived-AllBytes = omega arith

connection_is_packets_example :
    let (start, pio) = accept_client 5 empty_net in
    (ms : List Bytes) × (rest : List Arrival) × Acceptable ms
    × Brings ms arrived rest
    × Stands 5
        (record start { submitted = start.submitted ++ map (task_of 5) ms })
        rest
        (serve start pio arrived)
connection_is_packets_example = connection_is_packets 5 empty_net arrived arrived-AllBytes
