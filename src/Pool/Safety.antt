-- ===== src/Pool/Safety.antt =====
-- What the pool of LFThreadPool.cpp promises in every state that it can reach.
use instance_message.Base.{
  ℕ, ◌<◌, ◌≡◌, ◌≢◌, refl, ◌⊎◌, inl, inr, Bool, true, false, Bool-cases, List-cases, subst, List, [],
  ◌∷◌, ◌++◌, some, arith,
}
use instance_message.Pool.Loops.{
  Shared, quits, takes, leader_wait, thread_loop, follower_wait, follower_loop,
}
use instance_message.Pool.System.{
  Pc, created, follower_asleep, follower_woken, leader_asleep, leader_woken, ended, working, resume,
  task_asleep, follower_sleeps, System, Reach,
}
use instance_message.Pool.Runs.{leads}
use instance_message.Pool.Invariant.{Inv, Reach-Inv, candidate, has_ended}

module _ {T : Type 0} {n : ℕ} {s : System T} (r : Reach n s) where
  -- In every reachable state of the pool, two threads that both lead (that wait for `task_cv`,
  -- asleep or woken) are the same thread.
  pub one_leader : (i j : ℕ) → leads (s.pc i) ≡ true → leads (s.pc j) ≡ true → i ≡ j
  one_leader = (Reach-Inv r).unique

  -- In every reachable state, the tasks submitted so far are the tasks taken so far, in the order
  -- of taking, followed by the queue: each is taken once at most, first in first out.
  pub tasks_in_order : s.submitted ≡ s.taken ++ s.task_queue_data
  tasks_in_order = (Reach-Inv r).fifo

-- The thread has a task in hand, or its next run takes the oldest task of the queue.
abbrev pub Serves : {T : Type 0} → Pc T → Shared T → Type 0
Serves {T} p s =
    ((t : T) × (p ≡ working t))
    ⊎ ((t : T) × (rest : List T) × (sh : Shared T) × (s.task_queue_data ≡ t ∷ rest)
        × (resume p s ≡ some (sh, takes t)))

abbrev serves_of : {T : Type 0} → Bool → List T → Shared T
serves_of l q = record { leader_exists = l; stopping = false; task_queue_data = q }

module _ {T : Type 0} (t : T) (rest : List T) where
  leader-Serves :
      (p : Pc T) → leads p ≡ true → task_asleep p ≡ false → Serves p (serves_of true (t ∷ rest))
  unfolding leader_wait
  leader-Serves leader_woken h a = inr (t, rest, serves_of false rest, refl, refl)
  leader-Serves leader_asleep h a = cc
  leader-Serves _ h a = cc

  candidate-Serves : (p : Pc T) → candidate p ≡ true → Serves p (serves_of false (t ∷ rest))
  unfolding thread_loop follower_wait
  candidate-Serves created h = inr (t, rest, serves_of false rest, refl, refl)
  candidate-Serves follower_woken h = inr (t, rest, serves_of false rest, refl, refl)
  candidate-Serves _ h = cc

  leaderless-Serves :
      (p : Pc T)
      → leads p ≡ false
      → follower_sleeps p ≡ false
      → has_ended p ≡ false
      → Serves p (serves_of false (t ∷ rest))
  leaderless-Serves created a b c = candidate-Serves created refl
  leaderless-Serves follower_woken a b c = candidate-Serves follower_woken refl
  leaderless-Serves (working u) a b c = inl (u, refl)
  leaderless-Serves follower_asleep a b c = cc
  leaderless-Serves _ a b c = cc

serving :
    {T : Type 0} {n : ℕ} (s : System T) (t : T) (rest : List T)
    → Inv n s
    → 0 < n
    → s.stopping ≡ false
    → s.pending ≡ 0
    → (l : Bool) → s.leader_exists ≡ l
    → s.task_queue_data ≡ t ∷ rest
    → (i : ℕ) × (i < n) × Serves (s.pc i) (serves_of l (t ∷ rest))
serving s t rest inv pos b p true l q =
    let (i, lt, led) = inv.held l b in
    (i, lt, leader-Serves t rest (s.pc i) led (ground (arith, inv.signalled b i)))
serving s t rest inv pos b p false l q = elim (inv.succession l b) [
  | inl quiet ↦ (
    0,
    pos,
    leaderless-Serves t rest (s.pc 0) (ground (arith, inv.flagged 0)) (quiet 0) (inv.alive b 0),
  )
  | inr (i, lt, c) ↦ (i, lt, candidate-Serves t rest (s.pc i) c)
]

-- No wake-up is lost: in every reachable state of a pool with a thread that is not being
-- destroyed, if tasks are queued and no call of `submit` stands between its two critical sections,
-- then some thread has a task in hand or takes the oldest queued task when it next gets the mutex.
pub no_lost_wakeup :
    {T : Type 0} {n : ℕ} {s : System T}
    → Reach n s
    → 0 < n
    → s.stopping ≡ false
    → s.pending ≡ 0
    → s.task_queue_data ≢ []
    → (i : ℕ) × (i < n) × Serves (s.pc i) s.shared
no_lost_wakeup {T} {s} r pos b p q = elim (List-cases s.task_queue_data) [
  | inl e ↦ absurd (q e)
  | inr (t, rest, e) ↦
      let (i, lt, v) = serving s t rest (Reach-Inv r) pos b p s.leader_exists refl e in
      (i, lt, subst (Serves (s.pc i)) (shared_path b e) v)
]
  where
    shared_path :
        {t : T} {rest : List T}
        → s.stopping ≡ false
        → s.task_queue_data ≡ t ∷ rest
        → serves_of s.leader_exists (t ∷ rest) ≡ s.shared
    shared_path x y = cc

ends :
    {T : Type 0} (p : Pc T) (s : Shared T)
    → s.stopping ≡ true
    → (task_asleep p ≡ false) × (follower_sleeps p ≡ false)
    → (p ≡ ended)
      ⊎ ((sh : Shared T) × (resume p s ≡ some (sh, quits))
          × (sh.task_queue_data ≡ s.task_queue_data))
unfolding thread_loop follower_loop
ends ended s b a = inl refl
ends leader_asleep s b a = cc
ends follower_asleep s b a = cc
ends leader_woken s b a = inr (s, ground arith, refl)
ends follower_woken s b a = inr (s, ground arith, refl)
ends (working t) s b a = inr (s, ground arith, refl)
ends created s b a = elim (Bool-cases s.leader_exists) [
  | inl l ↦ inr (s, ground arith, refl)
  | inr l ↦ inr (record s { leader_exists = true }, ground arith, refl)
]

-- Once the destructor has run its critical section, every thread has ended or is about to: it is
-- not asleep, its next run ends it, and the tasks still queued stay in the queue, unserved by it.
pub destructor_ends_threads :
    {T : Type 0} {n : ℕ} {s : System T}
    → Reach n s
    → s.stopping ≡ true
    → (i : ℕ)
    → (s.pc i ≡ ended)
      ⊎ ((sh : Shared T) × (resume (s.pc i) s.shared ≡ some (sh, quits))
          × (sh.task_queue_data ≡ s.task_queue_data))
destructor_ends_threads {s} r b i = ends (s.pc i) s.shared b ((Reach-Inv r).awake b i)
