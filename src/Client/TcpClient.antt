-- ===== src/Client/TcpClient.antt =====
-- IMClient/Net/TcpClient.cpp, sendData and recvData. `recv` is given as the bytes of the stream and
-- the number of bytes that each call has ready; it returns no more than it is asked for, and a call
-- that returns none, or for which nothing is listed, is the end of the connection. `m_bRunning`
-- stays true while data arrive.
use Prim.Native.Nat.{min}
use instance_message.Base.{
  ℕ, zero, suc, ◌-◌, ◌||◌, Bool, true, false, not, Option, none, some, List, [], ◌∷◌, ◌++◌, Bytes,
  length, take, drop, int_at, int_bytes, non_negative, ◌==◌, if◌then◌else◌,
}

-- sendData: the result, and what went into the stream. Whether each `send` succeeds is an argument,
-- and `none` is a null pointer.
unfoldable pub send_data : (len_sent data_sent : Bool) → Option Bytes → ℕ → Bool × Bytes
send_data len_sent data_sent none len = (false, [])
send_data len_sent data_sent (some buf) len =
    if not (non_negative len) || len == 0
    then (false, [])
    else (if not len_sent
        then (false, [])
        else (if not data_sent
            then (false, int_bytes len)
            else (true, int_bytes len ++ take len buf)))

-- The inner loop: `pack_size` bytes are missing, and `got` have come. The result is the buffer, the
-- rest of the stream and of the calls.
unfoldable pub recv_body : ℕ → Bytes → Bytes → List ℕ → Bytes × Bytes × List ℕ
recv_body zero got stream sizes = (got, stream, sizes)
recv_body (suc n) got stream [] = (got, stream, [])
recv_body (suc n) got stream (k ∷ sizes) =
    let received = take (min k (suc n)) stream in
    let more =
      recv_body (suc n - length received) (got ++ received) (drop (length received) stream) sizes in
    if length received == 0 then (got, stream, sizes) else more

-- The bytes received replace the first bytes of `packSize`.
abbrev pub overwritten : ℕ → Bytes → Option ℕ
overwritten pack_size received = int_at 0 (received ++ drop (length received) (int_bytes pack_size))

-- The outer loop: the packets handed to the mediator, in order. A round receives a length and then
-- its packet; `new char[packSize]` with a negative size throws, which ends the process.
unfoldable pub recv_data : ℕ → ℕ → Bytes → List ℕ → List Bytes
unfolding recv_body
recv_data zero pack_size stream sizes = []
recv_data (suc rounds) pack_size stream [] = []
recv_data (suc rounds) pack_size stream (k ∷ sizes) =
    let received = take (min k 4) stream in
    let round = λ (n : ℕ).
      (let (packet, stream', sizes') = recv_body n [] (drop (length received) stream) sizes in
        packet ∷ recv_data rounds (n - length packet) stream' sizes') in
    elim (overwritten pack_size received) [
      | none ↦ []
      | some n ↦ if length received == 0 then [] else (if non_negative n then round n else [])
    ]
