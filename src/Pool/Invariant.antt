-- ===== src/Pool/Invariant.antt =====
-- What every reachable state of the pool keeps: one leader at most, the queue a FIFO of what was
-- submitted, and no wake-up lost.
mod Defs
mod Threads
mod Signals
pub use Defs.*
use instance_message.Base.{ℕ}
use instance_message.Pool.Loops.{takes}
use instance_message.Pool.Runs.{Ran-of, resume-awake}
use instance_message.Pool.System.{
  System, Step, run_to_wait, run_to_work, spurious_leader, spurious_follower, submits,
  notifies_leader, notifies_follower, destroys, Reach, here, next,
}
use Threads.{run_to_wait-Inv, run_to_work-Inv}
use Signals.{
  spurious_leader-Inv, wake_follower-Inv, submits-Inv, notifies_leader-Inv, notifies_follower-Inv,
  destroys-Inv,
}

module _ {T : Type 0} where
  pub Step-Inv : {n : ℕ} {s t : System T} → Step n s t → Inv n s → Inv n t
  Step-Inv {s} (run_to_wait i sh e lt h k) inv =
      run_to_wait-Inv inv i lt sh e (resume-awake (s.pc i) s.shared h)
        (Ran-of (s.pc i) s.shared sh e (inv.flagged i) h) k
  Step-Inv {s} (run_to_work i sh t lt h k) inv =
      run_to_work-Inv inv i lt sh t (Ran-of (s.pc i) s.shared sh (takes t) (inv.flagged i) h) k
  Step-Inv (spurious_leader i a) inv = spurious_leader-Inv inv i a
  Step-Inv (spurious_follower i a) inv = wake_follower-Inv inv i a
  Step-Inv (submits t sh h) inv = submits-Inv inv t sh h
  Step-Inv (notifies_leader p e l k) inv = notifies_leader-Inv inv p e l k
  Step-Inv (notifies_follower p e l k) inv = notifies_follower-Inv inv p e l k
  Step-Inv (destroys b) inv = destroys-Inv inv

  pub Reach-Inv : {n : ℕ} {s : System T} → Reach n s → Inv n s
  Reach-Inv {n} here = Inv-init n
  Reach-Inv (next r st) = Step-Inv st (Reach-Inv r)
