-- ===== src/Instance.antt =====
-- Ckernel::instance of IMServer/CKernel.cpp and SQLManager::getInstance of
-- IMServer/MySQL/SqlManager.cpp, which are the same program: the one object, made under a mutex by
-- the first caller, which tests the pointer twice. Any number of threads call it in any
-- interleaving; a read of the pointer is one step, also where no lock is held.
mod Examples
pub mod Invariant
use instance_message.Base.{ℕ, suc, ◌≡◌, Option, none, some}
use instance_message.Pool.System.{update}

-- Where a caller stands: before the first test, before the lock, before the second test, with a new
-- object in hand, before `return`, or back with a reference to an object.
pub data Caller : Type 0 where
  outside waits holds leaves : Caller
  built returned : ℕ → Caller

-- `m_uptr` (`instance`) and `m_mutex` (`g_lock`); objects are numbered in the order of creation.
pub record State : Type 0 where
  pub uptr : Option ℕ
  pub mutex : Option ℕ
  pub constructed : ℕ
  pub caller : ℕ → Caller

pub data Step (s : State) : State → Type 0 where
  finds :
      (i k : ℕ)
      → s.caller i ≡ outside
      → s.uptr ≡ some k
      → Step s (record s { caller = update s.caller i leaves })
  misses :
      (i : ℕ)
      → s.caller i ≡ outside
      → s.uptr ≡ none
      → Step s (record s { caller = update s.caller i waits })
  locks :
      (i : ℕ)
      → s.caller i ≡ waits
      → s.mutex ≡ none
      → Step s (record s { mutex = some i; caller = update s.caller i holds })
  finds_locked :
      (i k : ℕ)
      → s.caller i ≡ holds
      → s.uptr ≡ some k
      → Step s (record s { mutex = none; caller = update s.caller i leaves })
  constructs :
      (i : ℕ)
      → s.caller i ≡ holds
      → s.uptr ≡ none
      → Step s (record s {
        constructed = suc s.constructed;
        caller = update s.caller i (built s.constructed);
      })
  stores :
      (i k : ℕ)
      → s.caller i ≡ built k
      → Step s (record s { uptr = some k; mutex = none; caller = update s.caller i leaves })
  returns :
      (i k : ℕ)
      → s.caller i ≡ leaves
      → s.uptr ≡ some k
      → Step s (record s { caller = update s.caller i (returned k) })

abbrev pub start : State
start = record { uptr = none; mutex = none; constructed = 0; caller = λ i. outside }

pub data Reach : State → Type 0 where
  here : Reach start
  next : {s t : State} → Reach s → Step s t → Reach t
  -- A later call of a thread that is back.
  calls_again :
      {s : State} (i k : ℕ)
      → Reach s
      → s.caller i ≡ returned k
      → Reach (record s { caller = update s.caller i outside })
