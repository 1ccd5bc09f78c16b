-- ===== src/Pool/Runs.antt =====
-- What one run of a thread of the pool does to the members under the mutex, as one data type with a
-- case for each way in which the mutex is given up.
use instance_message.Base.{
  ◌≡◌, refl, ◌⊎◌, inl, inr, Bool, true, false, List, [], ◌∷◌, Option, none, some, arith, subst,
}
use instance_message.Pool.Loops.{
  Shared, Exit, waits_task, waits_follower, quits, takes, leader_wait, follower_wait, follower_loop,
  thread_loop,
}
use instance_message.Pool.System.{
  Pc, created, follower_asleep, follower_woken, leader_asleep, leader_woken, ended, working, resume,
  task_asleep, follower_sleeps,
}

module _ {T : Type 0} where
  abbrev pub leads : Pc T → Bool
  leads leader_asleep = true
  leads leader_woken = true
  leads _ = false

  -- What one run of a thread does to the shared members, whatever it was woken for.
  pub data Ran (led : Bool) (s sh : Shared T) : Exit T → Type 0 where
    stops :
        s.stopping ≡ true
        → sh.stopping ≡ true
        → sh.task_queue_data ≡ s.task_queue_data
        → (s.leader_exists ≡ true → sh.leader_exists ≡ true)
        → Ran led s sh quits
    follows :
        s.stopping ≡ false
        → sh ≡ s
        → s.leader_exists ≡ true
        → led ≡ false
        → Ran led s sh waits_follower
    waits :
        s.stopping ≡ false
        → sh.stopping ≡ false
        → sh.leader_exists ≡ true
        → s.task_queue_data ≡ []
        → sh.task_queue_data ≡ []
        → (led ≡ true) ⊎ (s.leader_exists ≡ false)
        → Ran led s sh waits_task
    works :
        (t : T)
        → s.stopping ≡ false
        → sh.stopping ≡ false
        → sh.leader_exists ≡ false
        → s.task_queue_data ≡ t ∷ sh.task_queue_data
        → (led ≡ true) ⊎ (s.leader_exists ≡ false)
        → Ran led s sh (takes t)

  abbrev pub Result : Bool → Shared T → Option (Shared T × Exit T) → Type 0
  Result led s none = Unit {0}
  Result led s (some (sh, e)) = Ran led s sh e

  abbrev pub shared_of : Bool → Bool → List T → Shared T
  shared_of l b q = record { leader_exists = l; stopping = b; task_queue_data = q }

  leader_run :
      (led l b : Bool) (q : List T)
      → (led ≡ true) ⊎ (l ≡ false)
      → Result led (shared_of l b q) (some (leader_wait (shared_of true b q)))
  unfolding leader_wait
  leader_run led l true q h = stops refl refl refl (λ e. refl)
  leader_run led l false [] h = waits refl refl refl refl refl h
  leader_run led l false (t ∷ q) h = works t refl refl refl refl h

  follower_run :
      (l b : Bool) (q : List T)
      → Result false (shared_of l b q) (some (follower_wait (shared_of l b q)))
  unfolding follower_wait
  follower_run l true q = stops refl refl refl (λ e. e)
  follower_run true false q = follows refl refl refl refl
  follower_run false false q = leader_run false false false q (inr refl)

  pub Ran-resume :
      (p : Pc T) (l b : Bool) (q : List T)
      → (leads p ≡ true → l ≡ true)
      → Result (leads p) (shared_of l b q) (resume p (shared_of l b q))
  unfolding thread_loop follower_loop
  Ran-resume created false true q h = stops refl refl refl (λ e. refl)
  Ran-resume created false false q h = leader_run false false false q (inr refl)
  Ran-resume created true true q h = stops refl refl refl (λ e. refl)
  Ran-resume created true false q h = follower_run true false q
  Ran-resume follower_woken l b q h = follower_run l b q
  Ran-resume leader_woken true b q h = leader_run true true b q (inl refl)
  Ran-resume leader_woken false b q h = ground arith
  Ran-resume (working t) l true q h = stops refl refl refl (λ e. e)
  Ran-resume (working t) l false q h = follower_run l false q
  Ran-resume follower_asleep l b q h = tt
  Ran-resume leader_asleep l b q h = tt
  Ran-resume ended l b q h = tt

  -- A thread that runs was neither asleep nor at its end.
  pub resume-awake :
      (p : Pc T) (s : Shared T) {x : Shared T × Exit T}
      → resume p s ≡ some x
      → (task_asleep p ≡ false) × (follower_sleeps p ≡ false)
  resume-awake follower_asleep s h = ground arith
  resume-awake leader_asleep s h = ground arith
  resume-awake created s h = (refl, refl)
  resume-awake follower_woken s h = (refl, refl)
  resume-awake leader_woken s h = (refl, refl)
  resume-awake ended s h = (refl, refl)
  resume-awake (working t) s h = (refl, refl)

  -- The same of a system's thread, with the leadership as the system knows it.
  pub Ran-of :
      (p : Pc T) (s sh : Shared T) (e : Exit T)
      → (leads p ≡ true → s.leader_exists ≡ true)
      → resume p s ≡ some (sh, e)
      → Ran (leads p) s sh e
  Ran-of p s sh e f h =
      subst (Result (leads p) s) h (Ran-resume p s.leader_exists s.stopping s.task_queue_data f)
