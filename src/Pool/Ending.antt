-- ===== src/Pool/Ending.antt =====
-- The destructor of LFThreadPool.cpp joins its threads: how long that can take.
use instance_message.Base.{
  ℕ, zero, suc, ◌+◌, ◌-◌, ◌<◌, ◌≤◌, ◌≡◌, refl, ◌∙◌, ◌⊎◌, inl, inr, Bool, true, false, Bool-cases,
  some, arith, if◌then◌else◌, ◌==◌, dec_lt,
}
use instance_message.Pool.Loops.{Shared, Exit, quits, takes, submit_push}
use instance_message.Pool.System.{
  Pc, created, follower_asleep, follower_woken, leader_asleep, leader_woken, ended, working, resume,
  update, pc_after, nobody, wakes, System, Step, run_to_wait, run_to_work, spurious_leader,
  spurious_follower, submits, notifies_leader, notifies_follower, destroys, Reach, next,
}
use instance_message.Pool.Runs.{Ran, Ran-of, leads}
use instance_message.Pool.Invariant.{Inv, Reach-Inv, has_ended}
use instance_message.Pool.Safety.{destructor_ends_threads}

module _ {T : Type 0} where
  -- The threads that have not ended, of the first `n`.
  abbrev pub unended : ℕ → (ℕ → Pc T) → ℕ
  unended zero pc = 0
  unended (suc n) pc = if has_ended (pc n) then unended n pc else suc (unended n pc)

  -- The steps that remain: one of each such thread, and the end of each call of `submit`.
  abbrev pub remaining : ℕ → System T → ℕ
  remaining n s = unended n s.pc + s.pending

  unended-outside : (n i : ℕ) (pc : ℕ → Pc T) → n ≤ i → unended n (update pc i ended) ≡ unended n pc
  unended-outside zero i pc h = refl
  unended-outside (suc n) i pc h = ground (arith, unended-outside n i pc (omega arith))

  unended-update :
      (n i : ℕ) (pc : ℕ → Pc T)
      → i < n
      → has_ended (pc i) ≡ false
      → suc (unended n (update pc i ended)) ≡ unended n pc
  unended-update zero i pc h e = absurd (omega arith)
  unended-update (suc n) i pc h e = elim (Bool-cases (i == n)) [
    | inl at ↦ ground (arith, unended-outside n i pc)
    | inr other ↦ ground (arith, unended-update n i pc)
  ]

  -- What a step comes to once the pool is stopping.
  record Nearer (n : ℕ) (s t : System T) : Type 0 where
    stops : t.stopping ≡ true
    fewer : suc (remaining n t) ≡ remaining n s
    queued : t.task_queue_data ≡ s.task_queue_data

  quits_Nearer :
      {n : ℕ} (s : System T) (i : ℕ) (sh : Shared T) (e : Exit T)
      → s.stopping ≡ true
      → i < n
      → has_ended (s.pc i) ≡ false
      → Ran (leads (s.pc i)) s.shared sh e
      → Nearer n s (record s { shared = sh; pc = update s.pc i (pc_after e) })
  quits_Nearer {n} s i sh e b lt a (Ran.stops x y z w) = record {
    stops = y;
    fewer = omega (arith, unended-update n i s.pc lt a);
    queued = z;
  }
  quits_Nearer s i sh e b lt a (Ran.follows x y z w) = cc
  quits_Nearer s i sh e b lt a (Ran.waits x y z w u v) = cc
  quits_Nearer s i sh e b lt a (Ran.works t x y z w u) = cc

  resume-alive :
      (p : Pc T) (s : Shared T) {x : Shared T × Exit T} → resume p s ≡ some x → has_ended p ≡ false
  resume-alive ended s h = ground arith
  resume-alive created s h = refl
  resume-alive follower_asleep s h = refl
  resume-alive follower_woken s h = refl
  resume-alive leader_asleep s h = refl
  resume-alive leader_woken s h = refl
  resume-alive (working t) s h = refl

  Step-Nearer : {n : ℕ} {s t : System T} → Inv n s → s.stopping ≡ true → Step n s t → Nearer n s t
  unfolding submit_push
  Step-Nearer {s} inv b (run_to_wait i sh e lt h k) =
      quits_Nearer s i sh e b lt (resume-alive (s.pc i) s.shared h)
        (Ran-of (s.pc i) s.shared sh e (inv.flagged i) h)
  Step-Nearer {s} inv b (run_to_work i sh t lt h k) =
      absurd (not_working sh t b (Ran-of (s.pc i) s.shared sh (takes t) (inv.flagged i) h))
    where
      not_working :
          {led : Bool} {u : Shared T} (sh : Shared T) (t : T)
          → u.stopping ≡ true
          → ¬ Ran led u sh (takes t)
      not_working sh t b (Ran.works _ x y z w v) = cc
  Step-Nearer inv b (spurious_leader i a) = absurd (ground (arith, inv.awake b i))
  Step-Nearer inv b (spurious_follower i a) = absurd (ground (arith, inv.awake b i))
  Step-Nearer inv b (submits t sh h) = absurd (ground arith)
  Step-Nearer inv b (notifies_leader p e l (nobody a)) = record {
    stops = b;
    fewer = omega arith;
    queued = refl;
  }
  Step-Nearer inv b (notifies_leader p e l (wakes i a)) = absurd (ground (arith, inv.awake b i))
  Step-Nearer inv b (notifies_follower p e l (nobody a)) = record {
    stops = b;
    fewer = omega arith;
    queued = refl;
  }
  Step-Nearer inv b (notifies_follower p e l (wakes i a)) = absurd (ground (arith, inv.awake b i))
  Step-Nearer inv b (destroys c) = cc

  -- A number of steps.
  pub data Steps (n : ℕ) (s : System T) : ℕ → System T → Type 0 where
    stay : Steps n s 0 s
    onward : {k : ℕ} {t u : System T} → Steps n s k t → Step n t u → Steps n s (suc k) u

  -- A state after some steps.
  record After (n k : ℕ) (s t : System T) : Type 0 where
    reached : Reach n t
    stops : t.stopping ≡ true
    counted : k + remaining n t ≡ remaining n s
    queued : t.task_queue_data ≡ s.task_queue_data

  Steps-After :
      {n : ℕ} {s : System T} {k : ℕ} {t : System T}
      → Reach n s
      → s.stopping ≡ true
      → Steps n s k t
      → After n k s t
  Steps-After r b stay = record { reached = r; stops = b; counted = omega arith; queued = refl }
  Steps-After r b (onward run st) =
      let a = Steps-After r b run in
      let c = Step-Nearer (Reach-Inv a.reached) a.stops st in
      record {
        reached = next a.reached st;
        stops = c.stops;
        counted = omega arith;
        queued = c.queued ∙ a.queued;
      }

  -- A thread that has not ended, if there is one.
  find_alive :
      (n : ℕ) (pc : ℕ → Pc T) → 1 ≤ unended n pc → (i : ℕ) × (i < n) × (has_ended (pc i) ≡ false)
  find_alive zero pc h = absurd (omega arith)
  find_alive (suc n) pc h = elim (Bool-cases (has_ended (pc n))) [
    | inr lives ↦ (n, omega arith, lives)
    | inl gone ↦ let (i, lt, lives) = find_alive n pc (ground arith) in (i, omega arith, lives)
  ]

  all_ended : (n : ℕ) (pc : ℕ → Pc T) → unended n pc ≡ 0 → (i : ℕ) → i < n → has_ended (pc i) ≡ true
  all_ended zero pc h i lt = absurd (omega arith)
  all_ended (suc n) pc h i lt =
      at (all_ended n pc) (Bool-cases (has_ended (pc n))) (Bool-cases (i == n))
    where
      at :
          (unended n pc ≡ 0 → (i : ℕ) → i < n → has_ended (pc i) ≡ true)
          → (has_ended (pc n) ≡ true) ⊎ (has_ended (pc n) ≡ false)
          → ((i == n) ≡ true) ⊎ ((i == n) ≡ false)
          → has_ended (pc i) ≡ true
      at before (inr lives) c = ground arith
      at before (inl gone) (inl same) = ground arith
      at before (inl gone) (inr other) = before (ground arith) i (ground arith)

  ended_of : (p : Pc T) → has_ended p ≡ true → p ≡ ended
  ended_of ended h = refl
  ended_of created h = cc
  ended_of _ h = cc

  submit_ends :
      {n : ℕ} {s : System T}
      → Inv n s
      → s.stopping ≡ true
      → (p : ℕ) → s.pending ≡ suc p
      → (t : System T) × Step n s t
  submit_ends {s} inv b p e = elim (Bool-cases s.leader_exists) [
    | inl l ↦ (_, notifies_leader p e l (nobody (λ i. (inv.awake b i).0)))
    | inr l ↦ (_, notifies_follower p e l (nobody (λ i. (inv.awake b i).1)))
  ]

  -- While anything remains, a thread of the pool runs to its end or a call of `submit` ends.
  progress :
      {n : ℕ} {s : System T}
      → Reach n s
      → s.stopping ≡ true
      → 1 ≤ remaining n s
      → (t : System T) × Step n s t
  progress {n} {s} r b h = elim (dec_lt 0 (unended n s.pc)) [
    | yes some_left ↦
        (let (i, lt, lives) = find_alive n s.pc some_left in
          elim (destructor_ends_threads r b i) [
            | inl gone ↦ ground arith
            | inr (sh, runs, _) ↦ (_, run_to_wait i sh quits lt runs (λ t e. cc))
          ])
    | no all_gone ↦ submit_ends (Reach-Inv r) b (s.pending - 1) (omega arith)
  ]

  -- The destructor ends: from every reachable state in which it has run its critical section, each
  -- run of the threads and of the calls of `submit` still under way has at most as many steps as
  -- there are threads that have not ended and such calls; while it has fewer, one more step is
  -- possible, and after that many every thread has ended, so that each `join` returns. The task a
  -- thread has in hand is taken to return. The tasks still queued stay in the queue, unserved.
  pub destructor_returns :
      {n : ℕ} {s t : System T} (k : ℕ)
      → Reach n s
      → s.stopping ≡ true
      → Steps n s k t
      → (k ≤ remaining n s)
        × (k < remaining n s → (u : System T) × Step n t u)
        × (k ≡ remaining n s → (i : ℕ) → i < n → t.pc i ≡ ended)
        × (t.task_queue_data ≡ s.task_queue_data)
  destructor_returns {n} {s} {t} k r b run =
      let a = Steps-After r b run in
      (
        omega (arith, a.counted),
        λ less. progress a.reached a.stops (omega (arith, a.counted)),
        λ all i lt. ended_of (t.pc i) (all_ended n t.pc (omega (arith, a.counted)) i lt),
        a.queued,
      )
