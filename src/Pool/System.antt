-- ===== src/Pool/System.antt =====
-- The threads of the pool, the callers of `submit` and the destructor, interleaved in any order.
use instance_message.Base.{
  ℕ, suc, ◌<◌, ◌≡◌, Bool, true, false, List, [], ◌∷◌, ◌++◌, Option, none, some, if◌then◌else◌, ◌==◌,
}
use instance_message.Pool.Loops.{
  Shared, Exit, waits_task, waits_follower, quits, takes, leader_wait, follower_wait, follower_loop,
  thread_loop, submit_push,
}

-- Where a thread stands: not yet in `threadLoop`, asleep or woken in one of the two waits, in
-- `dealData` with a task, or at its end.
pub data Pc (T : Type 0) : Type 0 where
  created follower_asleep follower_woken leader_asleep leader_woken ended : Pc T
  working : T → Pc T

abbrev pub update {ℓ} : {A : Type ℓ} → (ℕ → A) → ℕ → A → ℕ → A
update f i a j = if i == j then a else f j

-- `pending` counts the callers of `submit` between its two critical sections; `submitted` and
-- `taken` are the history of the queue.
pub record System (T : Type 0) : Type 0 where
  pub shared : Shared T
  pub open shared use *
  pub pc : ℕ → Pc T
  pub pending : ℕ
  pub submitted : List T
  pub taken : List T

module _ {T : Type 0} where
  -- What a thread runs when it gets the mutex; a thread asleep or at its end does not ask for it.
  abbrev pub resume : Pc T → Shared T → Option (Shared T × Exit T)
  resume created s = some (thread_loop s)
  resume follower_woken s = some (follower_wait s)
  resume leader_woken s = some (leader_wait s)
  resume (working t) s = some (follower_loop s)
  resume follower_asleep s = none
  resume leader_asleep s = none
  resume ended s = none

  abbrev pub pc_after : Exit T → Pc T
  pc_after waits_task = leader_asleep
  pc_after waits_follower = follower_asleep
  pc_after quits = ended
  pc_after (takes t) = working t

  abbrev pub task_asleep : Pc T → Bool
  task_asleep leader_asleep = true
  task_asleep _ = false

  abbrev pub follower_sleeps : Pc T → Bool
  follower_sleeps follower_asleep = true
  follower_sleeps _ = false

  abbrev pub woken_all : Pc T → Pc T
  woken_all follower_asleep = follower_woken
  woken_all leader_asleep = leader_woken
  woken_all p = p

  -- `notify_one` on the condition variable whose sleepers `asleep` tells: one of them, if any.
  pub data NotifyOne (asleep : Pc T → Bool) (target : Pc T) (pc : ℕ → Pc T)
      : (ℕ → Pc T) → Type 0 where
    nobody : ((i : ℕ) → asleep (pc i) ≡ false) → NotifyOne asleep target pc pc
    wakes : (i : ℕ) → asleep (pc i) ≡ true → NotifyOne asleep target pc (update pc i target)

  pub data Step (n : ℕ) (s : System T) : System T → Type 0 where
    run_to_wait :
        (i : ℕ) (sh : Shared T) (e : Exit T)
        → i < n
        → resume (s.pc i) s.shared ≡ some (sh, e)
        → ((t : T) → ¬ (e ≡ takes t))
        → Step n s (record s { shared = sh; pc = update s.pc i (pc_after e) })
    run_to_work :
        (i : ℕ) (sh : Shared T) (t : T) {pc : ℕ → Pc T}
        → i < n
        → resume (s.pc i) s.shared ≡ some (sh, takes t)
        → NotifyOne follower_sleeps follower_woken (update s.pc i (working t)) pc
        → Step n s (record s { shared = sh; pc = pc; taken = s.taken ++ t ∷ [] })
    spurious_leader :
        (i : ℕ)
        → task_asleep (s.pc i) ≡ true
        → Step n s (record s { pc = update s.pc i leader_woken })
    spurious_follower :
        (i : ℕ)
        → follower_sleeps (s.pc i) ≡ true
        → Step n s (record s { pc = update s.pc i follower_woken })
    submits :
        (t : T) (sh : Shared T)
        → submit_push s.shared t ≡ some sh
        → Step n s
            (record s { shared = sh; pending = suc s.pending; submitted = s.submitted ++ t ∷ [] })
    notifies_leader :
        (p : ℕ) {pc : ℕ → Pc T}
        → s.pending ≡ suc p
        → s.leader_exists ≡ true
        → NotifyOne task_asleep leader_woken s.pc pc
        → Step n s (record s { pc = pc; pending = p })
    notifies_follower :
        (p : ℕ) {pc : ℕ → Pc T}
        → s.pending ≡ suc p
        → s.leader_exists ≡ false
        → NotifyOne follower_sleeps follower_woken s.pc pc
        → Step n s (record s { pc = pc; pending = p })
    -- The destructor, which runs once.
    destroys :
        s.stopping ≡ false
        → Step n s (record s {
          shared = record (s.shared) { stopping = true };
          pc = λ i. woken_all (s.pc i);
        })

  -- The constructor.
  abbrev pub init : System T
  init = record {
    shared = record { leader_exists = false; stopping = false; task_queue_data = [] };
    pc = λ i. created;
    pending = 0;
    submitted = [];
    taken = [];
  }

  pub data Reach (n : ℕ) : System T → Type 0 where
    here : Reach n init
    next : {s t : System T} → Reach n s → Step n s t → Reach n t
