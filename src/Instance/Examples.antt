-- ===== src/Instance/Examples.antt =====
-- The first call, by one thread, while another waits for the lock.
use instance_message.Base.{ℕ, ◌≡◌, ◌≤◌, refl, some}
use instance_message.Instance.{
  State, Step, returned, misses, locks, constructs, stores, returns, Reach, here, next,
}
use instance_message.Instance.Invariant.{one_instance, some_caller_moves}

-- Threads 0 and 1 both find no object, and thread 0 gets the lock.
abbrev locked : (s : State) × Reach s
locked = (_, next (next (next here (misses 0 refl refl)) (misses 1 refl refl)) (locks 0 refl refl))

abbrev back : (s : State) × Reach s
back = (
  _,
  next (next (next locked.1 (constructs 0 refl refl)) (stores 0 0 refl)) (returns 0 0 refl refl),
)

one_instance_example :
    (back.0.constructed ≤ 1)
    × ((i j k l : ℕ)
        → back.0.caller i ≡ returned k
        → back.0.caller j ≡ returned l
        → (k ≡ l) × (back.0.uptr ≡ some k) × (back.0.constructed ≡ 1))
one_instance_example = one_instance back.1

some_caller_moves_example : (t : State) × Step locked.0 t
some_caller_moves_example = some_caller_moves locked.1 1 (λ k e. cc)
