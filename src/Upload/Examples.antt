-- ===== src/Upload/Examples.antt =====
-- Two packets from a client that the server has just accepted.
use instance_message.Base.{◌≡◌, refl, some, List, [], ◌∷◌, ◌++◌, Bytes, map, arith}
use instance_message.Iocp.Completion.{PerIo, Net, accept_client}
use instance_message.Iocp.Framing.{task_of}
use instance_message.Upload.{uploaded, serve_stream, Waiting, uploads_become_tasks}

abbrev accepted : Net × PerIo
accepted = accept_client 5 (record { clients = []; submitted = []; closed = [] })

abbrev packets : List Bytes
packets = (1 ∷ 2 ∷ []) ∷ (3 ∷ []) ∷ []

uploads_become_tasks_example :
    (pio' : PerIo) × Waiting pio'
    × (serve_stream 4 accepted.0 accepted.1 (uploaded packets) ≡ (
      record accepted.0 {
        submitted = accepted.0.submitted ++ map (task_of accepted.1.sock) packets;
      },
      some pio',
      [],
    ))
unfolding accept_client
uploads_become_tasks_example =
    uploads_become_tasks accepted.0 accepted.1 packets
      (record { awaits_header = refl; no_body = refl; wants_header = refl }) (omega arith)
