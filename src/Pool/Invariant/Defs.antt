-- ===== src/Pool/Invariant/Defs.antt =====
-- The invariant of the pool of LFThreadPool.cpp, and its start.
use instance_message.Base.{ℕ, ◌<◌, ◌≤◌, ◌≡◌, ◌≢◌, refl, ◌⊎◌, inl, Bool, true, false, [], ◌++◌}
use instance_message.Pool.Runs.{leads}
use instance_message.Pool.System.{
  Pc, created, follower_woken, ended, task_asleep, follower_sleeps, System, init,
}

module _ {T : Type 0} where
  -- A thread that takes the leadership when it next runs, if that is free.
  abbrev pub candidate : Pc T → Bool
  candidate created = true
  candidate follower_woken = true
  candidate _ = false

  abbrev pub has_ended : Pc T → Bool
  has_ended ended = true
  has_ended _ = false

  pub record Inv (n : ℕ) (s : System T) : Type 0 where
    pub unique : (i j : ℕ) → leads (s.pc i) ≡ true → leads (s.pc j) ≡ true → i ≡ j
    pub flagged : (i : ℕ) → leads (s.pc i) ≡ true → s.leader_exists ≡ true
    pub held :
        s.leader_exists ≡ true → s.stopping ≡ false → (i : ℕ) × (i < n) × (leads (s.pc i) ≡ true)
    pub succession :
        s.leader_exists ≡ false
        → s.stopping ≡ false
        → ((i : ℕ) → follower_sleeps (s.pc i) ≡ false)
          ⊎ ((i : ℕ) × (i < n) × (candidate (s.pc i) ≡ true))
    pub signalled :
        s.stopping ≡ false
        → (i : ℕ) → task_asleep (s.pc i) ≡ true
        → s.task_queue_data ≢ []
        → 1 ≤ s.pending
    pub alive : s.stopping ≡ false → (i : ℕ) → has_ended (s.pc i) ≡ false
    pub awake :
        s.stopping ≡ true
        → (i : ℕ) → (task_asleep (s.pc i) ≡ false) × (follower_sleeps (s.pc i) ≡ false)
    pub fifo : s.submitted ≡ s.taken ++ s.task_queue_data
    pub outside : (i : ℕ) → n ≤ i → s.pc i ≡ created

  pub Inv-init : (n : ℕ) → Inv n init
  Inv-init n = record {
    unique = λ i j p q. cc;
    flagged = λ i p. cc;
    held = λ p q. cc;
    succession = λ p q. inl (λ i. refl);
    signalled = λ q i p h. cc;
    alive = λ q i. refl;
    awake = λ q i. cc;
    fifo = refl;
    outside = λ i h. refl;
  }
