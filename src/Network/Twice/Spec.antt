-- ===== src/Network/Twice/Spec.antt =====
-- What each close of a network of IMClient/Net gives back.
use instance_message.Base.{
  ==_refl, ℕ, ◌≡◌, ◌≢◌, refl, sym, subst, Bool, true, false, Option, none, some, List, [], ◌∷◌,
  ◌++◌, ◌+◌, arith,
}
use instance_message.Network.Sockets.{
  Call, wsa_startup, wsa_cleanup, makes_socket, closes_socket, waits_for, terminates, closes_handle,
  starts_thread, thread_call, close_sock, Answers, made, closed, started, cleaned,
}
use instance_message.Network.Lifecycle.{stop_thread}
use instance_message.Network.Mediators.{NetClass}

pub closed-append : (s : ℕ) (cs ds : List Call) → closed s (cs ++ ds) ≡ closed s cs + closed s ds
closed-append s [] ds = omega arith
closed-append s (closes_socket t ∷ cs) ds = ground (arith, closed-append s cs ds)
closed-append s (makes_socket t ∷ cs) ds = closed-append s cs ds
closed-append s (wsa_startup ∷ cs) ds = closed-append s cs ds
closed-append s (wsa_cleanup ∷ cs) ds = closed-append s cs ds
closed-append s (starts_thread t ∷ cs) ds = closed-append s cs ds
closed-append s (waits_for t ∷ cs) ds = closed-append s cs ds
closed-append s (terminates t ∷ cs) ds = closed-append s cs ds
closed-append s (closes_handle t ∷ cs) ds = closed-append s cs ds

pub cleaned-append : (cs ds : List Call) → cleaned (cs ++ ds) ≡ cleaned cs + cleaned ds
cleaned-append [] ds = omega arith
cleaned-append (closes_socket t ∷ cs) ds = cleaned-append cs ds
cleaned-append (makes_socket t ∷ cs) ds = cleaned-append cs ds
cleaned-append (wsa_startup ∷ cs) ds = cleaned-append cs ds
cleaned-append (wsa_cleanup ∷ cs) ds = ground (arith, cleaned-append cs ds)
cleaned-append (starts_thread t ∷ cs) ds = cleaned-append cs ds
cleaned-append (waits_for t ∷ cs) ds = cleaned-append cs ds
cleaned-append (terminates t ∷ cs) ds = cleaned-append cs ds
cleaned-append (closes_handle t ∷ cs) ds = cleaned-append cs ds

-- A network that gives its socket back each time it is closed: what holds of it while it knows the
-- socket, from the opening on.
pub record Closes (k : NetClass) : Type 1 where
  pub Knows : ℕ → k.Net → Type 0
  pub opens :
      (a : Answers) (n : k.Net) (cs : List Call) (s : ℕ)
      → k.init_net a k.new_net ≡ (true, n, cs)
      → a.socket ≡ some s
      → Knows s n × (made s cs ≡ 1) × (started cs ≡ 1)
  pub closes :
      (s : ℕ) (n : k.Net) (timed_out : Bool)
      → Knows s n
      → s ≢ 0
      → (n' : k.Net) × (ds : List Call) × (k.un_init_net timed_out n ≡ some (n', ds))
        × Knows s n'
        × (closed s ds ≡ 1)
        × (cleaned ds ≡ 1)

-- The last calls of each unInitNet.
abbrev pub last : Option ℕ → List Call
last sock = close_sock sock ++ wsa_cleanup ∷ []

pub last_lem :
    (s : ℕ) (sock : Option ℕ)
    → sock ≡ some s
    → s ≢ 0
    → (closed s (last sock) ≡ 1) × (cleaned (last sock) ≡ 1)
last_lem s none e ne = absurd (ground arith)
last_lem s (some t) e ne = ground (arith, ==_refl s)

pub stops_only :
    (s : ℕ) (timed_out : Bool) (h : Option ℕ) (ds : List Call)
    → (closed s (stop_thread timed_out h ++ ds) ≡ closed s ds)
      × (cleaned (stop_thread timed_out h ++ ds) ≡ cleaned ds)
stops_only s true h ds = (refl, refl)
stops_only s false h ds = (refl, refl)

-- The calls of an opening.
taken :
    (s : ℕ) (thread : Option ℕ)
    → let cs = wsa_startup ∷ makes_socket s ∷ thread_call thread in
      (made s cs ≡ 1) × (started cs ≡ 1)
taken s none = (ground (arith, ==_refl s), refl)
taken s (some t) = (ground (arith, ==_refl s), refl)

pub took :
    (s : ℕ) (thread : Option ℕ) (cs : List Call)
    → cs ≡ wsa_startup ∷ makes_socket s ∷ thread_call thread
    → (made s cs ≡ 1) × (started cs ≡ 1)
took s thread cs e = subst (λ l. (made s l ≡ 1) × (started l ≡ 1)) (sym e) (taken s thread)
