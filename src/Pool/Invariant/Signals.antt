-- ===== src/Pool/Invariant/Signals.antt =====
-- Submissions, wake-ups and the destructor keep the invariant of the pool.
use instance_message.Base.{
  ℕ, suc, ◌≡◌, inr, true, false, [], ◌∷◌, ◌++◌, some, arith, append_assoc, dec_lt,
}
use instance_message.Pool.Loops.{Shared, submit_push}
use instance_message.Pool.System.{
  Pc, follower_woken, leader_woken, update, task_asleep, follower_sleeps, woken_all, NotifyOne,
  nobody, wakes, System,
}
use instance_message.Pool.Invariant.Defs.{Inv}

module _ {T : Type 0} where
  module _ {n : ℕ} {s : System T} (inv : Inv n s) where
    open inv use {unique, flagged, held, succession, signalled, alive, awake, fifo, outside}

    pub spurious_leader-Inv :
        (i : ℕ) → task_asleep (s.pc i) ≡ true → Inv n (record s { pc = update s.pc i leader_woken })
    spurious_leader-Inv i a = record {
      unique = λ x y p r. ground (arith, unique x y);
      flagged = λ x p. ground (arith, flagged x);
      held = λ p r. let (w, v, u) = held p r in (w, v, ground arith);
      succession = λ p r. ground (arith, flagged i);
      signalled = λ r x p q. ground (arith, signalled r x);
      alive = λ r x. ground (arith, alive r x);
      awake = λ r x. ground (arith, awake r x);
      fifo = fifo;
      outside = λ x r. ground (arith, outside x r);
    }

    -- A follower that is woken is a candidate.
    pub wake_follower-Inv :
        (i : ℕ)
        → follower_sleeps (s.pc i) ≡ true
        → Inv n (record s { pc = update s.pc i follower_woken })
    wake_follower-Inv i a = record {
      unique = λ x y p r. ground (arith, unique x y);
      flagged = λ x p. ground (arith, flagged x);
      held = λ p r. let (w, v, u) = held p r in (w, v, ground arith);
      succession = λ p r. inr (i, ground (arith, outside i, dec_lt i n), ground arith);
      signalled = λ r x p q. ground (arith, signalled r x);
      alive = λ r x. ground (arith, alive r x);
      awake = λ r x. ground (arith, awake r x);
      fifo = fifo;
      outside = λ x r. ground (arith, outside x r);
    }

    pub submits-Inv :
        (t : T) (sh : Shared T)
        → submit_push s.shared t ≡ some sh
        → Inv n
            (record s { shared = sh; pending = suc s.pending; submitted = s.submitted ++ t ∷ [] })
    unfolding submit_push
    submits-Inv t sh h = record {
      unique = unique;
      flagged = λ x p. ground (arith, flagged x);
      held = λ p r. held (ground arith) (ground arith);
      succession = λ p r. succession (ground arith) (ground arith);
      signalled = λ r x p q. omega arith;
      alive = λ r x. alive (ground arith) x;
      awake = λ r x. ground arith;
      fifo = ground (arith, append_assoc s.taken s.task_queue_data (t ∷ []), fifo);
      outside = outside;
    }

    -- The leader cannot sleep any more once a notification for it went out.
    pub notifies_leader-Inv :
        (p : ℕ) {pc : ℕ → Pc T}
        → s.pending ≡ suc p
        → s.leader_exists ≡ true
        → NotifyOne task_asleep leader_woken s.pc pc
        → Inv n (record s { pc = pc; pending = p })
    notifies_leader-Inv p e l (nobody none_asleep) = record {
      unique = unique;
      flagged = flagged;
      held = held;
      succession = succession;
      signalled = λ r x a q. ground (arith, none_asleep x);
      alive = alive;
      awake = awake;
      fifo = fifo;
      outside = outside;
    }
    notifies_leader-Inv p e l (wakes j asleep) =
        let v = spurious_leader-Inv j asleep in
        record {
          unique = v.unique;
          flagged = v.flagged;
          held = v.held;
          succession = v.succession;
          signalled = λ r x a q. ground (arith, unique j x);
          alive = v.alive;
          awake = v.awake;
          fifo = v.fifo;
          outside = v.outside;
        }

    pub notifies_follower-Inv :
        (p : ℕ) {pc : ℕ → Pc T}
        → s.pending ≡ suc p
        → s.leader_exists ≡ false
        → NotifyOne follower_sleeps follower_woken s.pc pc
        → Inv n (record s { pc = pc; pending = p })
    notifies_follower-Inv p e l (nobody none_asleep) = record {
      unique = unique;
      flagged = flagged;
      held = held;
      succession = succession;
      signalled = λ r x a q. ground (arith, flagged x);
      alive = alive;
      awake = awake;
      fifo = fifo;
      outside = outside;
    }
    notifies_follower-Inv p e l (wakes j asleep) =
        let v = wake_follower-Inv j asleep in
        record {
          unique = v.unique;
          flagged = v.flagged;
          held = v.held;
          succession = v.succession;
          signalled = λ r x a q. ground (arith, flagged x);
          alive = v.alive;
          awake = v.awake;
          fifo = v.fifo;
          outside = v.outside;
        }

    pub destroys-Inv :
        Inv n (record s {
          shared = record (s.shared) { stopping = true };
          pc = λ i. woken_all (s.pc i);
        })
    destroys-Inv = record {
      unique = λ x y p r. ground (arith, unique x y);
      flagged = λ x p. ground (arith, flagged x);
      held = λ p r. cc;
      succession = λ p r. cc;
      signalled = λ r x p q. cc;
      alive = λ r x. cc;
      awake = λ r x. ground arith;
      fifo = fifo;
      outside = λ x r. ground (arith, outside x r);
    }
