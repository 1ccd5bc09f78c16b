-- ===== src/Iocp/Life.antt =====
-- One connection from its acceptance to its end, whatever bytes the completions of workerThread in
-- IOCPTCPServer.cpp bring.
mod Spec
mod Steps
pub use Spec.{Stands}
unfoldable pub use Spec.{AreBytes, AllBytes, IsBodyLen, Brings, announces}
use Steps.{
  accepted, closes, turned_away, awaiting, header_step, handed_on, after_body, whole_body,
  part_body, served_on, served_out,
}
use instance_message.Base.{
  ℕ, Bool, ◌+◌, ◌≡◌, ◌≢◌, refl, sym, ◌∙◌, ap, ◌⊎◌, inl, inr, Bool-cases, true, false, Option, some,
  List, [], ◌∷◌, ◌++◌, Bytes, length, append_assoc, append-nil, arith, map, ◌==◌, subst,
}
use instance_message.Iocp.Completion.{
  Arrival, completes, fails, PerIo, Net, close_client, accept_client, on_completion,
}
use instance_message.Iocp.Framing.{serve, completions, Acceptable, task_of, Ready}

-- The network after whole packets.
abbrev handed_all : Net → ℕ → List Bytes → Net
handed_all net sock [] = net
handed_all net sock (m ∷ ms) =
    handed_all (record net { submitted = net.submitted ++ task_of sock m ∷ [] }) sock ms

handed_all_lem :
    (net : Net) (sock : ℕ) (ms : List Bytes)
    → handed_all net sock ms ≡ record net { submitted = net.submitted ++ map (task_of sock) ms }
handed_all_lem net sock [] = ap (λ l. record net { submitted = l }) (sym (append-nil net.submitted))
handed_all_lem net sock (m ∷ ms) =
    handed_all_lem (record net { submitted = net.submitted ++ task_of sock m ∷ [] }) sock ms
    ∙ ap (λ l. record net { submitted = l })
        (append_assoc net.submitted (task_of sock m ∷ []) (map (task_of sock) ms))

-- What a run of arrivals comes to: whole packets, and how the connection stands after them.
record Lived (net : Net) (sock : ℕ) (cs : List Arrival) (result : Net × Option PerIo) : Type 0 where
  packets : List Bytes
  rest : List Arrival
  allowed : Acceptable packets
  arrived : Brings packets cs rest
  stands : Stands sock (handed_all net sock packets) rest result

stands_at :
    (net : Net) (sock : ℕ) (cs : List Arrival) (r r' : Net × Option PerIo)
    → r ≡ r'
    → Stands sock net cs r'
    → Lived net sock cs r
stands_at net sock cs r r' e s = record {
  packets = [];
  rest = cs;
  allowed = tt;
  arrived = refl;
  stands = subst (Stands sock net cs) (sym e) s;
}

one_more :
    (net : Net) (sock w : ℕ) (unseen : Bool) (m : Bytes) (cs : List Arrival)
    (r r' : Net × Option PerIo)
    → IsBodyLen w
    → length m ≡ w
    → r ≡ r'
    → Lived (record net { submitted = net.submitted ++ task_of sock m ∷ [] }) sock cs r'
    → Lived net sock (completes false (announces w) ∷ completes unseen m ∷ cs) r
one_more net sock w unseen m cs r r' h size e l = record {
  packets = m ∷ l.packets;
  rest = l.rest;
  allowed = (omega arith, omega arith, l.allowed);
  arrived = (
    unseen,
    cs,
    λ i. completes false (announces (sym size i)) ∷ completes unseen m ∷ cs,
    l.arrived,
  );
  stands = subst (Stands sock _ l.rest) (sym e) l.stands;
}

-- A connection whose header is taken, with the body that comes then.
bodied :
    (net : Net) (pio : PerIo) (w : ℕ) (unseen : Bool) (c m : Bytes) (cs : List Arrival)
    → IsBodyLen w
    → c ≡ announces w
    → on_completion false net pio c ≡ (net, some (awaiting pio w))
    → Lived (handed_on net pio m) pio.sock cs (serve (handed_on net pio m) (after_body pio w) cs)
    → let all = completes false c ∷ completes unseen m ∷ cs in
      Lived net pio.sock all (serve net pio all)
bodied net pio w unseen c m cs h e ran more =
    let all = completes false c ∷ completes unseen m ∷ cs in
    subst
      (λ x. Lived net pio.sock (completes false x ∷ completes unseen m ∷ cs) (serve net pio all))
      (sym e) (at (Bool-cases (length m == w)))
  where
    started :
        serve net pio (completes false c ∷ completes unseen m ∷ cs)
        ≡ serve net (awaiting pio w) (completes unseen m ∷ cs)
    started = served_on net net pio (awaiting pio w) false c (completes unseen m ∷ cs) ran

    at :
        ((length m == w) ≡ true) ⊎ ((length m == w) ≡ false)
        → Lived net pio.sock
            (completes false (announces w) ∷ completes unseen m ∷ cs)
            (serve net pio (completes false c ∷ completes unseen m ∷ cs))
    at (inl whole) =
        let size : length m ≡ w = ground arith in
        one_more net pio.sock w unseen m cs _ _ h size
          (started
            ∙ served_on net (handed_on net pio m) (awaiting pio w) (after_body pio w) unseen m cs
                (whole_body net pio unseen w m h size))
          more
    at (inr part) =
        let other : length m ≢ w = λ k. ground (arith, k) in
        stands_at net pio.sock _ _ _
          (started
            ∙ served_out net (awaiting pio w) (awaiting pio w) unseen m cs
                (part_body net pio unseen w m h other))
          (Stands.cut_off w unseen m cs (awaiting pio w) h other refl)

-- A connection whose header is taken, with nothing behind it, or a failure.
waits :
    (net : Net) (pio : PerIo) (w : ℕ) (c : Bytes) (cs : List Arrival)
    → c ≡ announces w
    → on_completion false net pio c ≡ (net, some (awaiting pio w))
    → serve net (awaiting pio w) cs ≡ (net, some (awaiting pio w))
    → Stands pio.sock net (completes false (announces w) ∷ cs) (net, some (awaiting pio w))
    → Lived net pio.sock (completes false c ∷ cs) (serve net pio (completes false c ∷ cs))
waits net pio w c cs e ran stays s =
    stands_at net pio.sock (completes false c ∷ cs) _ _
      (served_on net net pio (awaiting pio w) false c cs ran ∙ stays)
      (subst (λ x. Stands pio.sock net (completes false x ∷ cs) (net, some (awaiting pio w)))
        (sym e) s)

-- A connection that its first completion closes, or whose header is taken.
closed_or_taken :
    (net : Net) (pio : PerIo) (refused : Bool) (c : Bytes) (cs : List Arrival)
    → Ready pio
    → AreBytes c
    → ((w : ℕ)
        → IsBodyLen w
        → c ≡ announces w
        → on_completion false net pio c ≡ (net, some (awaiting pio w))
        → Lived net pio.sock (completes false c ∷ cs) (serve net pio (completes false c ∷ cs)))
    → Lived net pio.sock (completes refused c ∷ cs) (serve net pio (completes refused c ∷ cs))
closed_or_taken net pio refused c cs r h taken = elim (header_step net pio refused c r h) [
  | accepted w fits e well ran ↦
      subst (λ b. Lived net pio.sock (completes b c ∷ cs) (serve net pio (completes b c ∷ cs)))
        (sym well)
        (taken w fits e
          (subst (λ b. on_completion b net pio c ≡ (net, some (awaiting pio w))) well ran))
  | turned_away w fits e bad ran ↦
      stands_at net pio.sock (completes refused c ∷ cs) _ _
        (served_out net pio (awaiting pio w) refused c cs ran)
        (subst
          (λ (x : Bool × Bytes).
            Stands pio.sock net (completes x.0 x.1 ∷ cs) (close_client net (awaiting pio w)))
          (λ i. (sym bad i, sym e i)) (Stands.turned_away w cs (awaiting pio w) fits refl))
  | closes pio' bad same ran ↦
      stands_at net pio.sock (completes refused c ∷ cs) _ _
        (served_out net pio pio' refused c cs ran) (Stands.no_header refused c cs pio' bad same)
]

lived :
    (net : Net) (pio : PerIo) (cs : List Arrival)
    → Ready pio
    → AllBytes cs
    → Lived net pio.sock cs (serve net pio cs)
unfolding serve
lived net pio [] r h = stands_at net pio.sock [] _ _ refl (Stands.idle pio r refl)
lived net pio (fails ∷ cs) r h =
    stands_at net pio.sock (fails ∷ cs) _ _ refl (Stands.stranded cs pio r refl)
lived net pio (completes refused c ∷ []) r h =
    closed_or_taken net pio refused c [] r h.0 λ w fits e ran.
      waits net pio w c [] e ran refl (Stands.halfway w (awaiting pio w) fits refl refl refl)
lived net pio (completes refused c ∷ fails ∷ cs) r h =
    closed_or_taken net pio refused c (fails ∷ cs) r h.0 λ w fits e ran.
      waits net pio w c (fails ∷ cs) e ran refl
        (Stands.stranded_halfway w cs (awaiting pio w) fits refl refl refl)
lived net pio (completes refused c ∷ completes unseen m ∷ cs) r h =
    closed_or_taken net pio refused c (completes unseen m ∷ cs) r h.0 λ w fits e ran.
      bodied net pio w unseen c m cs fits e ran (
        lived (handed_on net pio m) (after_body pio w) cs
          (record { awaits_header = refl; no_body = refl }) h.1.1)

-- Whatever the completions of an accepted client bring, and however the bytes are cut: the tasks
-- for the pool are whole packets of 1 byte up to 10 MB, each behind its length, as they came and in
-- order, with the key of the client, and nothing of the stream before the last of them is left out.
-- After them the connection is between two packets or behind a header, with nothing left; or it was
-- closed, once, and the client is forgotten, whatever comes then: by the first completion that is
-- not an allowed header or not the whole body, or behind an allowed header when the system refuses
-- the receive of the body; or a wait for completions failed, which ends the thread and leaves the
-- connection as it is, with whatever comes then.
pub connection_is_packets :
    (sock : ℕ) (net : Net) (cs : List Arrival)
    → AllBytes cs
    → let (start, pio) = accept_client sock net in
      (ms : List Bytes) × (rest : List Arrival) × Acceptable ms
      × Brings ms cs rest
      × Stands sock
          (record start { submitted = start.submitted ++ map (task_of sock) ms })
          rest
          (serve start pio cs)
unfolding accept_client
connection_is_packets sock net cs h =
    let (start, pio) = accept_client sock net in
    let l = lived start pio cs (record { awaits_header = refl; no_body = refl }) h in
    (
      l.packets,
      l.rest,
      l.allowed,
      l.arrived,
      subst (λ n. Stands sock n l.rest (serve start pio cs)) (handed_all_lem start sock l.packets)
          l.stands,
    )
