-- ===== src/Iocp/Life/Steps.antt =====
-- What workerThread of IOCPTCPServer.cpp does with one completion of a connection.
use instance_message.Base.{
  ℕ, Bool, ◌+◌, ◌*◌, ◌%◌, ◌/◌, ◌<◌, ◌≡◌, ◌≢◌, refl, sym, ◌∙◌, ap, inl, inr, Bool-cases, true, false,
  Option, none, some, List, [], ◌∷◌, ◌++◌, Bytes, length, int_at, int_bytes, append-nil, arith, ltb,
  ◌==◌, ◌||◌, int_at-int_bytes, some-injective,
}
use instance_message.Iocp.Completion.{
  OpType, Arrival, completes, PerIo, Net, max_body_len, close_client, on_completion,
}
use instance_message.Iocp.Framing.{serve, task_of, Ready}
use instance_message.Iocp.Life.Spec.{AreBytes, IsBodyLen, announces}

-- Four bytes are the bytes of the number that they stand for.
header_bytes :
    (a b c d : ℕ)
    → a < 256
    → b < 256
    → c < 256
    → d < 256
    → int_bytes (a + 256 * b + 65536 * c + 16777216 * d) ≡ a ∷ b ∷ c ∷ d ∷ []
unfolding int_bytes
header_bytes a b c d ha hb hc hd =
    let e0 : (a + 256 * b + 65536 * c + 16777216 * d) % 256 ≡ a = omega arith in
    let e1 : (a + 256 * b + 65536 * c + 16777216 * d) / 256 % 256 ≡ b = omega arith in
    let e2 : (a + 256 * b + 65536 * c + 16777216 * d) / 65536 % 256 ≡ c = omega arith in
    let e3 : (a + 256 * b + 65536 * c + 16777216 * d) / 16777216 % 256 ≡ d = omega arith in
    rw (e0, e1, e2, e3) refl

abbrev pub awaiting : PerIo → ℕ → PerIo
awaiting pio w = record pio {
  body_len = w;
  body_buf = true;
  op_type = OpType.op_recv_body;
  wanted = w;
}

not_four : (w : ℕ) (c : Bytes) → length c ≢ 4 → c ≢ announces w
unfolding int_bytes
not_four w c h e = h (ap length e)

pub data HeaderStep (net : Net) (pio : PerIo) (refused : Bool) (c : Bytes) : Type 0 where
  accepted :
      (w : ℕ)
      → IsBodyLen w
      → c ≡ announces w
      → refused ≡ false
      → on_completion refused net pio c ≡ (net, some (awaiting pio w))
      → HeaderStep net pio refused c
  turned_away :
      (w : ℕ)
      → IsBodyLen w
      → c ≡ announces w
      → refused ≡ true
      → on_completion refused net pio c ≡ close_client net (awaiting pio w)
      → HeaderStep net pio refused c
  closes :
      (pio' : PerIo)
      → ((w : ℕ) → IsBodyLen w → c ≢ announces w)
      → pio'.sock ≡ pio.sock
      → on_completion refused net pio c ≡ close_client net pio'
      → HeaderStep net pio refused c

other_length :
    (net : Net) (pio : PerIo) (refused : Bool) (c : Bytes)
    → Ready pio
    → length c ≢ 4
    → HeaderStep net pio refused c
unfolding on_completion
other_length net pio refused c r h =
    closes pio (λ w _. not_four w c h) refl (ground (arith, r.awaits_header))

announced : (w v : ℕ) (c : Bytes) → IsBodyLen w → c ≡ announces w → int_at 0 c ≡ some v → w ≡ v
announced w v c h e read = some-injective w v (
    sym (int_at-int_bytes w [] (omega arith))
    ∙ ap (int_at 0) (append-nil (int_bytes w) ∙ sym e)
    ∙ read)

run_accepts :
    (net : Net) (pio : PerIo) (w : ℕ) (c : Bytes)
    → Ready pio
    → length c ≡ 4
    → int_at 0 c ≡ some w
    → IsBodyLen w
    → on_completion false net pio c ≡ (net, some (awaiting pio w))
unfolding on_completion
run_accepts net pio w c r four value h = ground (arith, r.awaits_header)

run_turns_away :
    (net : Net) (pio : PerIo) (w : ℕ) (c : Bytes)
    → Ready pio
    → length c ≡ 4
    → int_at 0 c ≡ some w
    → IsBodyLen w
    → on_completion true net pio c ≡ close_client net (awaiting pio w)
unfolding on_completion close_client
run_turns_away net pio w c r four value h = ground (arith, r.awaits_header)

run_refuses :
    (net : Net) (pio : PerIo) (refused : Bool) (w : ℕ) (c : Bytes)
    → Ready pio
    → length c ≡ 4
    → int_at 0 c ≡ some w
    → (w == 0 || ltb max_body_len w) ≡ true
    → on_completion refused net pio c ≡ close_client net (record pio { body_len = w })
unfolding on_completion close_client
run_refuses net pio refused w c r four value h = ground (arith, r.awaits_header)

allowed_header :
    (net : Net) (pio : PerIo) (refused : Bool) (w : ℕ) (c : Bytes)
    → Ready pio
    → length c ≡ 4
    → int_at 0 c ≡ some w
    → c ≡ announces w
    → IsBodyLen w
    → HeaderStep net pio refused c
allowed_header net pio false w c r four value e fits =
    accepted w fits e refl (run_accepts net pio w c r four value fits)
allowed_header net pio true w c r four value e fits =
    turned_away w fits e refl (run_turns_away net pio w c r four value fits)

four_bytes :
    (net : Net) (pio : PerIo) (refused : Bool) (w : ℕ) (c : Bytes)
    → Ready pio
    → length c ≡ 4
    → int_at 0 c ≡ some w
    → c ≡ announces w
    → HeaderStep net pio refused c
four_bytes net pio refused w c r four value e = elim (Bool-cases (w == 0 || ltb max_body_len w)) [
  | inl bad ↦
      closes (record pio { body_len = w }) (λ v h k. cc_bad v h (announced v w c h k value) bad)
        refl (run_refuses net pio refused w c r four value bad)
  | inr good ↦ allowed_header net pio refused w c r four value e (ground arith, ground arith)
]
  where
    cc_bad : (v : ℕ) → IsBodyLen v → v ≡ w → (w == 0 || ltb max_body_len w) ≡ true → ⊥
    cc_bad v h k bad = ground arith

pub header_step :
    (net : Net) (pio : PerIo) (refused : Bool) (c : Bytes)
    → Ready pio
    → AreBytes c
    → HeaderStep net pio refused c
unfolding int_at
header_step net pio refused [] r h = other_length net pio refused [] r (λ e. absurd (omega arith))
header_step net pio refused (a ∷ []) r h =
    other_length net pio refused _ r (λ e. absurd (omega arith))
header_step net pio refused (a ∷ b ∷ []) r h =
    other_length net pio refused _ r (λ e. absurd (omega arith))
header_step net pio refused (a ∷ b ∷ x ∷ []) r h =
    other_length net pio refused _ r (λ e. absurd (omega arith))
header_step net pio refused (a ∷ b ∷ x ∷ d ∷ []) r h =
    four_bytes net pio refused _ (a ∷ b ∷ x ∷ d ∷ []) r refl refl
      (sym (header_bytes a b x d h.0 h.1.0 h.1.1.0 h.1.1.1.0))
header_step net pio refused (a ∷ b ∷ x ∷ d ∷ y ∷ rest) r h =
    other_length net pio refused _ r (λ e. absurd (omega arith))

abbrev pub handed_on : Net → PerIo → Bytes → Net
handed_on net pio m = record net { submitted = net.submitted ++ task_of pio.sock m ∷ [] }

abbrev pub after_body : PerIo → ℕ → PerIo
after_body pio w = record pio {
  body_len = w;
  body_buf = false;
  op_type = OpType.op_recv_header;
  wanted = 4;
}

pub whole_body :
    (net : Net) (pio : PerIo) (refused : Bool) (w : ℕ) (m : Bytes)
    → IsBodyLen w
    → length m ≡ w
    → on_completion refused net (awaiting pio w) m ≡ (handed_on net pio m, some (after_body pio w))
unfolding on_completion
whole_body net pio refused w m h e = ground arith

pub part_body :
    (net : Net) (pio : PerIo) (refused : Bool) (w : ℕ) (m : Bytes)
    → IsBodyLen w
    → length m ≢ w
    → on_completion refused net (awaiting pio w) m ≡ close_client net (awaiting pio w)
unfolding on_completion
part_body net pio refused w m h e = ground arith

-- One step of `serve`, and its end.
abbrev pub continued : List Arrival → Net × Option PerIo → Net × Option PerIo
continued cs x = elim x.1 as (λ _. Net × Option PerIo) [
  | none ↦ (x.0, none)
  | some pio' ↦ serve x.0 pio' cs
]

pub served_on :
    (net net' : Net) (pio pio' : PerIo) (refused : Bool) (c : Bytes) (cs : List Arrival)
    → on_completion refused net pio c ≡ (net', some pio')
    → serve net pio (completes refused c ∷ cs) ≡ serve net' pio' cs
unfolding serve
served_on net net' pio pio' refused c cs e = ap (continued cs) e

pub served_out :
    (net : Net) (pio pio' : PerIo) (refused : Bool) (c : Bytes) (cs : List Arrival)
    → on_completion refused net pio c ≡ close_client net pio'
    → serve net pio (completes refused c ∷ cs) ≡ close_client net pio'
unfolding serve close_client
served_out net pio pio' refused c cs e = ap (continued cs) e
