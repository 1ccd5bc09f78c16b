-- ===== src/Iocp/Life/Spec.antt =====
-- How a connection of IOCPTCPServer.cpp stands after some of its completions.
use instance_message.Base.{
  ℕ, Bool, true, false, ◌<◌, ◌≤◌, ◌≡◌, ◌≢◌, Option, some, List, [], ◌∷◌, Bytes, length, int_bytes,
}
use instance_message.Iocp.Completion.{
  OpType, Arrival, completes, fails, PerIo, Net, max_body_len, close_client,
}
use instance_message.Iocp.Framing.{Ready}

-- Every element is a byte.
abbrev pub AreBytes : Bytes → Type 0
AreBytes [] = Unit {0}
AreBytes (b ∷ bs) = (b < 256) × AreBytes bs

abbrev pub AllBytes : List Arrival → Type 0
AllBytes [] = Unit {0}
AllBytes (completes refused c ∷ cs) = AreBytes c × AllBytes cs
AllBytes (fails ∷ cs) = AllBytes cs

-- A header that announces a body.
abbrev pub announces : ℕ → Bytes
announces w = int_bytes w

abbrev pub IsBodyLen : ℕ → Type 0
IsBodyLen w = (1 ≤ w) × (w ≤ max_body_len)

-- Arrivals that begin with whole packets: for each the header with its length, behind which the
-- body could be asked for, and then the body; `rest` is what comes after them. Nothing depends on how
-- the handling of a body fares with the receive of the next header, which is not looked at.
abbrev pub Brings : List Bytes → (cs rest : List Arrival) → Type 0
Brings [] cs rest = cs ≡ rest
Brings (m ∷ ms) cs rest =
    (unseen : Bool) × (later : List Arrival) × (cs
      ≡ completes false (announces (length m)) ∷ completes unseen m ∷ later)
    × Brings ms later rest

-- How a connection stands after whole packets, for the network that these have left, the arrivals
-- that remain, and the network and the operation in the end.
pub data Stands (sock : ℕ) (n : Net) : List Arrival → Net × Option PerIo → Type 0 where
  -- Between two packets.
  idle : (pio : PerIo) → Ready pio → pio.sock ≡ sock → Stands sock n [] (n, some pio)
  -- After a header.
  halfway :
      (w : ℕ) (pio : PerIo)
      → IsBodyLen w
      → pio.op_type ≡ OpType.op_recv_body
      → pio.body_len ≡ w
      → pio.sock ≡ sock
      → Stands sock n (completes false (announces w) ∷ []) (n, some pio)
  -- Closed by a completion that is no header of a body that is allowed.
  no_header :
      (refused : Bool) (c : Bytes) (later : List Arrival) (pio : PerIo)
      → ((w : ℕ) → IsBodyLen w → c ≢ announces w)
      → pio.sock ≡ sock
      → Stands sock n (completes refused c ∷ later) (close_client n pio)
  -- Closed behind the header of a body that is allowed, whose receive is refused.
  turned_away :
      (w : ℕ) (later : List Arrival) (pio : PerIo)
      → IsBodyLen w
      → pio.sock ≡ sock
      → Stands sock n (completes true (announces w) ∷ later) (close_client n pio)
  -- Closed by a body that does not come whole.
  cut_off :
      (w : ℕ) (unseen : Bool) (body : Bytes) (later : List Arrival) (pio : PerIo)
      → IsBodyLen w
      → length body ≢ w
      → pio.sock ≡ sock
      → Stands sock n
          (completes false (announces w) ∷ completes unseen body ∷ later)
          (close_client n pio)
  -- Left open between two packets, or behind a header, by a failure, which ends the thread.
  stranded :
      (later : List Arrival) (pio : PerIo)
      → Ready pio
      → pio.sock ≡ sock
      → Stands sock n (fails ∷ later) (n, some pio)
  stranded_halfway :
      (w : ℕ) (later : List Arrival) (pio : PerIo)
      → IsBodyLen w
      → pio.op_type ≡ OpType.op_recv_body
      → pio.body_len ≡ w
      → pio.sock ≡ sock
      → Stands sock n (completes false (announces w) ∷ fails ∷ later) (n, some pio)
