-- ===== src/Network/Closing.antt =====
-- What opening a network takes, and what closing it gives back.
use instance_message.Base.{
  ℕ, ◌≡◌, ◌≢◌, sym, ap, ◌∙◌, subst, Bool, true, false, Option-cases, inl, inr, Option, none, some,
  List, ◌∷◌, ◌++◌, arith,
}
use instance_message.Network.Sockets.{
  Call, wsa_startup, makes_socket, thread_call, INet, Answers, made, closed, started, cleaned,
  threads_started, handles_closed,
}
use instance_message.Network.Lifecycle.{init_net, un_init_net}

-- What an `initNet` that succeeds leaves behind.
pub opened :
    (a : Answers) (n n' : INet) (cs : List Call)
    → init_net a n ≡ (true, n', cs)
    → (s : ℕ) × (a.socket ≡ some s)
      × (n' ≡ record n { sock = some s; handle = a.thread })
      × (cs ≡ wsa_startup ∷ makes_socket s ∷ thread_call a.thread)
unfolding init_net
opened a n n' cs h = elim (Option-cases a.socket) [
  | inl e ↦ absurd (ground arith)
  | inr (s, e) ↦ (s, e, ground arith, ground arith)
]

-- What was taken is given back: the library is cleaned up as often as it was started, every socket
-- is closed as often as it was made, and every thread's handle as often as the thread was started.
abbrev pub IsBalanced : List Call → Type 0
IsBalanced cs =
    (started cs ≡ cleaned cs)
    × ((s : ℕ) → made s cs ≡ closed s cs)
    × ((h : ℕ) → threads_started h cs ≡ handles_closed h cs)

-- One closing after an opening, for a socket that is not 0.
closes_all :
    (s : ℕ) (thread : Option ℕ) (timed_out : Bool) (n : INet)
    → s ≢ 0
    → let cs = wsa_startup ∷ makes_socket s ∷ thread_call thread in
      IsBalanced (cs ++ (un_init_net timed_out (record n { sock = some s; handle = thread })).1)
unfolding un_init_net
closes_all s none true n ne = (ground arith, λ t. ground arith, λ h. ground arith)
closes_all s none false n ne = (ground arith, λ t. ground arith, λ h. ground arith)
closes_all s (some h) true n ne = (ground arith, λ t. ground arith, λ t. ground arith)
closes_all s (some h) false n ne = (ground arith, λ t. ground arith, λ t. ground arith)

-- A network of the client that was opened, over a socket that is not 0, and is closed once gives
-- back all that it took: the library is cleaned up as often as it was started, every socket is
-- closed as often as it was made, and the handle of every thread is closed as often as the thread
-- was started, whether the thread had to be terminated or not.
pub close_once_balances :
    (a : Answers) (n n' : INet) (cs : List Call) (timed_out : Bool)
    → init_net a n ≡ (true, n', cs)
    → a.socket ≢ some 0
    → IsBalanced (cs ++ (un_init_net timed_out n').1)
close_once_balances a n n' cs timed_out h ne =
    let (s, e, net, took) = opened a n n' cs h in
    subst (λ (x : INet × List Call). IsBalanced (x.1 ++ (un_init_net timed_out x.0).1))
      (λ i. (sym net i, sym took i)) (closes_all s a.thread timed_out n (λ z. ne (e ∙ ap some z)))
