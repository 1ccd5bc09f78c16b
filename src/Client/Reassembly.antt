-- ===== src/Client/Reassembly.antt =====
-- TcpClient.cpp, recvData: packets come out whole however the network cuts their bodies.
use Prim.Native.Nat.{min}
use instance_message.Base.{
  ℕ, zero, suc, ◌-◌, ◌<◌, ◌≤◌, ◌^◌, ◌≡◌, refl, ◌∙◌, ap, some, List, [], ◌∷◌, ◌++◌, Bytes, length,
  take, drop, int_at, int_bytes, append_assoc, append-nil, int_at-int_bytes, take-append,
  drop-append, length-take, length-drop, take-append-drop, ne→==, arith,
}
use instance_message.Client.TcpClient.{recv_body, recv_data}

-- How the calls of `recv` cut the body of a packet: pieces of at least a byte that add up to it.
abbrev pub Pieces : ℕ → List ℕ → Type 0
Pieces n [] = n ≡ 0
Pieces n (k ∷ ks) = (1 ≤ k) × (k ≤ n) × Pieces (n - k) ks

-- Packets with the calls that deliver them: four bytes or more ready for the length, then pieces.
abbrev pub Cut : List Bytes → List (List ℕ) → Type 0
Cut [] [] = Unit {0}
Cut [] (ks ∷ kss) = ⊥
Cut (m ∷ ms) [] = ⊥
Cut (m ∷ ms) (ks ∷ kss) = (length m < 2 ^ 31) × Pieces (length m) ks × Cut ms kss

abbrev pub calls : List (List ℕ) → List ℕ
calls [] = []
calls (ks ∷ kss) = 4 ∷ (ks ++ calls kss)

-- The stream that a sender of the packets produces.
abbrev pub stream_of : List Bytes → Bytes
stream_of [] = []
stream_of (m ∷ ms) = int_bytes (length m) ++ (m ++ stream_of ms)

recv_body-Pieces :
    (ks : List ℕ) (n : ℕ) (m got rest : Bytes) (more : List ℕ)
    → n ≡ length m
    → Pieces n ks
    → recv_body n got (m ++ rest) (ks ++ more) ≡ (got ++ m, rest, more)
unfolding recv_body
recv_body-Pieces [] zero [] got rest more e h = ground (arith, append-nil got)
recv_body-Pieces [] zero (b ∷ m) got rest more e h = absurd (omega arith)
recv_body-Pieces [] (suc n) m got rest more e h = absurd (omega arith)
recv_body-Pieces (k ∷ ks) zero m got rest more e h = absurd (omega arith)
recv_body-Pieces (k ∷ ks) (suc n) m got rest more e h =
    let size : min k (suc n) ≡ k = omega arith in
    let count : length (take k m) ≡ k = omega (arith, length-take k m) in
    let tail =
      recv_body-Pieces ks (suc n - k) (drop k m) (got ++ take k m) rest more
        (omega (arith, length-drop k m)) h.2 in
    rw (size, take-append k m rest (omega arith), count)
      (rw (ne→== k 0 (omega arith))
        (rw (drop-append k m rest (omega arith)) (tail ∙ ap (λ x. (x, rest, more)) joined)))
  where
    joined : (got ++ take k m) ++ drop k m ≡ got ++ m
    joined = append_assoc got (take k m) (drop k m) ∙ ap (◌++◌ got) (take-append-drop k m)

one_packet :
    (rounds old : ℕ) (m rest : Bytes) (ks more : List ℕ)
    → length m < 2 ^ 31
    → Pieces (length m) ks
    → recv_data (suc rounds) old (int_bytes (length m) ++ (m ++ rest)) (4 ∷ (ks ++ more))
      ≡ m ∷ recv_data rounds (length m - length m) rest more
unfolding recv_data int_bytes
one_packet rounds old m rest ks more small h =
    ground (arith, value, recv_body-Pieces ks (length m) m [] rest more refl h)
  where
    value : int_at 0 (int_bytes (length m) ++ []) ≡ some (length m)
    value = int_at-int_bytes (length m) [] (omega arith)

nothing_more : (rounds old : ℕ) → recv_data (suc rounds) old [] [] ≡ []
unfolding recv_data
nothing_more rounds old = refl

-- Packets of less than 2 GB, each behind its length, are handed on whole and in order, however the
-- calls of `recv` cut their bodies, as long as each length arrives in one call; one round more than
-- there are packets is enough.
pub packets_reassembled :
    (rounds old : ℕ) (ms : List Bytes) (kss : List (List ℕ))
    → length ms < rounds
    → Cut ms kss
    → recv_data rounds old (stream_of ms) (calls kss) ≡ ms
packets_reassembled zero old ms kss h c = absurd (omega arith)
packets_reassembled (suc rounds) old [] [] h c = nothing_more rounds old
packets_reassembled (suc rounds) old [] (ks ∷ kss) h c = absurd c
packets_reassembled (suc rounds) old (m ∷ ms) [] h c = absurd c
packets_reassembled (suc rounds) old (m ∷ ms) (ks ∷ kss) h c =
    one_packet rounds old m (stream_of ms) ks (calls kss) c.0 c.1
    ∙ ap (◌∷◌ m) (packets_reassembled rounds (length m - length m) ms kss (omega arith) c.2)
