-- ===== src/Pool/Invariant/Threads.antt =====
-- A thread of the pool that runs keeps the invariant.
use instance_message.Base.{
  ℕ, ◌<◌, ◌≡◌, refl, inl, inr, false, [], ◌∷◌, ◌++◌, arith, append_assoc, dec_lt,
}
use instance_message.Pool.Loops.{Shared, Exit, takes}
use instance_message.Pool.Runs.{leads, Ran, stops, follows, waits, works}
use instance_message.Pool.System.{
  Pc, follower_woken, working, update, pc_after, task_asleep, follower_sleeps, NotifyOne, nobody,
  wakes, System,
}
use instance_message.Pool.Invariant.Defs.{Inv}

module _ {T : Type 0} where
  module _ {n : ℕ} {s : System T} (inv : Inv n s) (i : ℕ) (below : i < n) where
    open inv use {unique, flagged, held, succession, signalled, alive, awake, fifo, outside}

    pub run_to_wait-Inv :
        (sh : Shared T) (e : Exit T)
        → (task_asleep (s.pc i) ≡ false) × (follower_sleeps (s.pc i) ≡ false)
        → Ran (leads (s.pc i)) s.shared sh e
        → ((t : T) → ¬ (e ≡ takes t))
        → Inv n (record s { shared = sh; pc = update s.pc i (pc_after e) })
    run_to_wait-Inv sh e a (stops b b' q l) h = record {
      unique = λ x y p r. ground (arith, unique x y);
      flagged = λ x p. ground (arith, flagged x);
      held = λ p r. ground arith;
      succession = λ p r. ground arith;
      signalled = λ r. ground arith;
      alive = λ r. ground arith;
      awake = λ r x. ground (arith, awake b x);
      fifo = ground arith;
      outside = λ x r. ground (arith, outside x r);
    }
    run_to_wait-Inv sh e a (follows b c l d) h = record {
      unique = λ x y p r. ground (arith, unique x y);
      flagged = λ x p. ground (arith, flagged x);
      held = λ p r. let (w, v, u) = held l b in (w, v, ground arith);
      succession = λ p r. ground arith;
      signalled = λ r x p q. ground (arith, signalled b x);
      alive = λ r x. ground (arith, alive b x);
      awake = λ r x. ground (arith);
      fifo = ground arith;
      outside = λ x r. ground (arith, outside x r);
    }
    run_to_wait-Inv sh e a (waits b b' l q q' d) h = record {
      unique = λ x y p r. ground (arith, unique x y, unique i x, unique i y, flagged x, flagged y);
      flagged = λ x p. l;
      held = λ p r. (i, below, ground arith);
      succession = λ p r. ground arith;
      signalled = λ r x p q. ground arith;
      alive = λ r x. ground (arith, alive b x);
      awake = λ r x. ground (arith);
      fifo = ground arith;
      outside = λ x r. ground (arith, outside x r);
    }
    run_to_wait-Inv sh e a (works t b b' l q d) h = absurd (h t refl)

    pub run_to_work-Inv :
        (sh : Shared T) (t : T) {pc : ℕ → Pc T}
        → Ran (leads (s.pc i)) s.shared sh (takes t)
        → NotifyOne follower_sleeps follower_woken (update s.pc i (working t)) pc
        → Inv n (record s { shared = sh; pc = pc; taken = s.taken ++ t ∷ [] })
    run_to_work-Inv sh t (works _ b b' l q d) (nobody none_asleep) = record {
      unique = λ x y p r. ground (arith, unique x y);
      flagged = λ x p. ground (arith, unique i x, flagged x);
      held = λ p r. ground arith;
      succession = λ p r. inl none_asleep;
      signalled = λ r x p k. ground (arith, unique i x, flagged x);
      alive = λ r x. ground (arith, alive b x);
      awake = λ r x. ground arith;
      fifo = rw (append_assoc s.taken (t ∷ []) sh.task_queue_data) (rw (← q) fifo);
      outside = λ x r. ground (arith, outside x r);
    }
    run_to_work-Inv sh t (works _ b b' l q d) (wakes j asleep) = record {
      unique = λ x y p r. ground (arith, unique x y);
      flagged = λ x p. ground (arith, unique i x, flagged x);
      held = λ p r. ground arith;
      succession = λ p r. inr (j, ground (arith, outside j, dec_lt j n), ground arith);
      signalled = λ r x p k. ground (arith, unique i x, flagged x);
      alive = λ r x. ground (arith, alive b x);
      awake = λ r x. ground arith;
      fifo = rw (append_assoc s.taken (t ∷ []) sh.task_queue_data) (rw (← q) fifo);
      outside = λ x r. ground (arith, outside x r, outside j);
    }
