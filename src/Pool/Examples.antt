-- ===== src/Pool/Examples.antt =====
-- Runs of the pool of LFThreadPool.cpp with two threads, and its theorems at the states they reach.
use instance_message.Base.{ℕ, some, ◌<◌, ◌≤◌, ◌≡◌, refl, true, false, [], ◌∷◌, ◌++◌, arith}
use instance_message.Pool.Loops.{
  Shared, waits_task, quits, takes, thread_loop, leader_wait, submit_push,
}
use instance_message.Pool.System.{
  created, ended, resume, wakes, System, Step, run_to_wait, submits, notifies_leader, destroys,
  init, Reach, here, next,
}
use instance_message.Pool.Safety.{Serves, one_leader, tasks_in_order, no_lost_wakeup}
use instance_message.Pool.Ending.{remaining, Steps, stay, onward, destructor_returns}

abbrev idle : Shared ℕ
idle = record { leader_exists = true; stopping = false; task_queue_data = [] }

abbrev loaded : Shared ℕ
loaded = record { leader_exists = true; stopping = false; task_queue_data = 7 ∷ [] }

first_run : resume created (init {T = ℕ}).shared ≡ some (idle, waits_task)
unfolding thread_loop
first_run = refl

push_seven : submit_push idle 7 ≡ some loaded
unfolding submit_push
push_seven = refl

not_taken : (t : ℕ) → ¬ (waits_task ≡ takes t)
not_taken t e = cc

-- Thread 0 becomes the leader and sleeps; a task is submitted and the leader woken.
abbrev leader : (s : System ℕ) × Reach 2 s
leader = (_, next here (run_to_wait 0 idle waits_task (omega arith) first_run not_taken))

abbrev woken : (s : System ℕ) × Reach 2 s
woken = (
  _,
  next (next leader.1 (submits 7 loaded push_seven)) (notifies_leader 0 refl refl (wakes 0 refl)),
)

abbrev destroyed : (s : System ℕ) × Reach 2 s
destroyed = (_, next woken.1 (destroys refl))

one_leader_example : ◌≡◌ {A = ℕ} 0 0
one_leader_example = one_leader woken.1 0 0 refl refl

tasks_in_order_example : woken.0.submitted ≡ woken.0.taken ++ woken.0.task_queue_data
tasks_in_order_example = tasks_in_order woken.1

no_lost_wakeup_example : (i : ℕ) × (i < 2) × Serves (woken.0.pc i) woken.0.shared
no_lost_wakeup_example = no_lost_wakeup woken.1 (omega arith) refl refl (λ e. cc)

abbrev stopped : Shared ℕ
stopped = record { leader_exists = true; stopping = true; task_queue_data = 7 ∷ [] }

leader_quits : resume (destroyed.0.pc 0) destroyed.0.shared ≡ some (stopped, quits)
unfolding leader_wait
leader_quits = refl

not_taken_on_stop : (t : ℕ) → ¬ (quits ≡ takes t)
not_taken_on_stop t e = cc

-- Thread 0 ends, and thread 1 is left.
abbrev joining : (s : System ℕ) × Steps 2 destroyed.0 1 s
joining =
    (_, onward stay (run_to_wait 0 stopped quits (omega arith) leader_quits not_taken_on_stop))

destructor_returns_example :
    (1 ≤ remaining 2 destroyed.0)
    × (1 < remaining 2 destroyed.0 → (u : System ℕ) × Step 2 joining.0 u)
    × (1 ≡ remaining 2 destroyed.0 → (i : ℕ) → i < 2 → joining.0.pc i ≡ ended)
    × (joining.0.task_queue_data ≡ 7 ∷ [])
destructor_returns_example = destructor_returns 1 destroyed.1 refl joining.1
