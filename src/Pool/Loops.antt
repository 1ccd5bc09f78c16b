-- ===== src/Pool/Loops.antt =====
-- IMServer/LFThreadPool/LFThreadPool.cpp, threadLoop, followerLoop and leaderLoop: from the point
-- where a thread owns `mtx` up to the point where it gives it up.
use instance_message.Base.{
  Bool, true, false, not, ◌||◌, List, [], ◌∷◌, ◌++◌, Option, none, some, if◌then◌else◌,
}

-- The members that `mtx` guards.
pub record Shared (T : Type 0) : Type 0 where
  pub leader_exists : Bool
  pub stopping : Bool
  pub task_queue_data : List T

-- How the mutex is given up: in a wait for `task_cv` or `follower_cv`, by the end of the thread, or
-- by `lk.unlock()` with a task in hand, after `follower_cv.notify_one()`.
pub data Exit (T : Type 0) : Type 0 where
  waits_task waits_follower quits : Exit T
  takes : T → Exit T

module _ {T : Type 0} where
  -- task_queue_data.front(), pop_front(), and the leadership given up.
  unfoldable pub take_task : Shared T → List T → Shared T × Exit T
  take_task s [] = (s, waits_task)
  take_task s (t ∷ rest) = (record s { task_queue_data = rest; leader_exists = false }, takes t)

  -- From the wait for `task_cv` on, which a thread that is woken comes back to.
  unfoldable pub leader_wait : Shared T → Shared T × Exit T
  unfolding take_task
  leader_wait s = if s.stopping then (s, quits) else take_task s s.task_queue_data

  unfoldable pub leader_loop : Shared T → Shared T × Exit T
  unfolding leader_wait
  leader_loop s = if s.stopping then (s, quits) else leader_wait s

  -- From the wait for `follower_cv` on.
  unfoldable pub follower_wait : Shared T → Shared T × Exit T
  unfolding leader_loop
  follower_wait s =
      if s.stopping || not s.leader_exists
      then (if s.stopping then (s, quits) else leader_loop (record s { leader_exists = true }))
      else (s, waits_follower)

  unfoldable pub follower_loop : Shared T → Shared T × Exit T
  unfolding follower_wait
  follower_loop s = if s.stopping then (s, quits) else follower_wait s

  unfoldable pub thread_loop : Shared T → Shared T × Exit T
  unfolding leader_loop follower_loop
  thread_loop s =
      if not s.leader_exists
      then leader_loop (record s { leader_exists = true })
      else follower_loop s

  -- The first critical section of `submit`; `none` is the exception.
  unfoldable pub submit_push : Shared T → T → Option (Shared T)
  submit_push s t =
      if s.stopping then none else some (record s { task_queue_data = s.task_queue_data ++ t ∷ [] })
