-- ===== src/Instance/Invariant.antt =====
-- What holds of the one object and its callers in every state.
use instance_message.Base.{ℕ, ◌≤◌, ◌≡◌, ◌≢◌, refl, ap, Bool, true, false, Option, none, some, arith}
use instance_message.Pool.System.{update}
use instance_message.Instance.{
  Caller, outside, waits, holds, leaves, built, returned, State, Step, finds, misses, locks,
  finds_locked, constructs, stores, returns, start, Reach, here, next, calls_again,
}

abbrev pub critical : Caller → Bool
critical holds = true
critical (built k) = true
critical _ = false

pub record Inv (s : State) : Type 0 where
  pub owner : (i : ℕ) → critical (s.caller i) ≡ true → s.mutex ≡ some i
  pub stored : (k : ℕ) → s.uptr ≡ some k → s.constructed ≡ 1
  pub fresh : (i k : ℕ) → s.caller i ≡ built k → (s.uptr ≡ none) × (s.constructed ≡ 1)
  pub empty_locked : (i : ℕ) → s.caller i ≡ holds → s.uptr ≡ none → s.constructed ≡ 0
  pub empty_free : s.mutex ≡ none → s.uptr ≡ none → s.constructed ≡ 0
  pub same : (i k : ℕ) → s.caller i ≡ returned k → s.uptr ≡ some k
  pub few : s.constructed ≤ 1
  pub held : (i : ℕ) → s.mutex ≡ some i → critical (s.caller i) ≡ true
  pub left : (i : ℕ) → s.caller i ≡ leaves → s.uptr ≢ none

start-Inv : Inv start
start-Inv = record {
  owner = λ i h. cc;
  stored = λ k h. cc;
  fresh = λ i k h. cc;
  empty_locked = λ i h e. refl;
  empty_free = λ h e. refl;
  same = λ i k h. cc;
  few = omega arith;
  held = λ i h. cc;
  left = λ i h e. cc;
}

-- A caller that moves outside of the critical section changes nothing that is shared.
aside-Inv :
    (s : State) (i : ℕ) (c : Caller)
    → Inv s
    → critical (s.caller i) ≡ false
    → critical c ≡ false
    → (c ≡ leaves → s.uptr ≢ none)
    → ((k : ℕ) → c ≡ returned k → s.uptr ≡ some k)
    → Inv (record s { caller = update s.caller i c })
aside-Inv s i c v before after found back = record {
  owner = λ x h. ground (arith, v.owner x);
  stored = v.stored;
  fresh = λ x y h. ground (arith, v.fresh x y);
  empty_locked = λ x h e. ground (arith, v.empty_locked x);
  empty_free = v.empty_free;
  same = λ x y h. ground (arith, v.same x y, back y);
  few = v.few;
  held = λ x h. ground (arith, v.held x, v.held i);
  left = λ x h e. ground (arith, v.left x);
}

Step-Inv : (s t : State) → Inv s → Step s t → Inv t
Step-Inv s _ v (finds i k c u) = aside-Inv s i leaves v (ap critical c) refl (λ h e. cc) (λ k h. cc)
Step-Inv s _ v (misses i c u) = aside-Inv s i waits v (ap critical c) refl (λ h e. cc) (λ k h. cc)
Step-Inv s _ v (returns i k c u) =
    aside-Inv s i (returned k) v (ap critical c) refl (λ h e. cc) (λ l h. cc)
Step-Inv s _ v (locks i c u) = record {
  owner = λ x h. ground (arith, v.owner x, v.owner i);
  stored = λ x h. ground (arith, v.stored x);
  fresh = λ x y h. ground (arith, v.fresh x y, v.owner x, v.owner i, v.empty_locked i);
  empty_locked = λ x h e. ground (arith, v.empty_locked x, v.empty_free, v.owner x, v.owner i);
  empty_free = λ h e. ground (arith, v.empty_free, v.owner i);
  same = λ x y h. ground (arith, v.same x y);
  few = ground (arith, v.few, v.empty_locked i);
  held = λ x h. ground (arith, v.held x, v.held i, v.owner i, v.owner x);
  left = λ x h e. ground (arith, v.left x, v.left i);
}
Step-Inv s _ v (finds_locked i k c u) = record {
  owner = λ x h. ground (arith, v.owner x, v.owner i);
  stored = λ x h. ground (arith, v.stored x);
  fresh = λ x y h. ground (arith, v.fresh x y, v.owner x, v.owner i, v.empty_locked i);
  empty_locked = λ x h e. ground (arith, v.empty_locked x, v.empty_free, v.owner x, v.owner i);
  empty_free = λ h e. ground (arith, v.empty_free, v.owner i);
  same = λ x y h. ground (arith, v.same x y);
  few = ground (arith, v.few, v.empty_locked i);
  held = λ x h. ground (arith, v.held x, v.held i, v.owner i, v.owner x);
  left = λ x h e. ground (arith, v.left x, v.left i);
}
Step-Inv s _ v (constructs i c u) = record {
  owner = λ x h. ground (arith, v.owner x, v.owner i);
  stored = λ x h. ground (arith, v.stored x);
  fresh = λ x y h. ground (arith, v.fresh x y, v.owner x, v.owner i, v.empty_locked i);
  empty_locked = λ x h e. ground (arith, v.empty_locked x, v.empty_free, v.owner x, v.owner i);
  empty_free = λ h e. ground (arith, v.empty_free, v.owner i);
  same = λ x y h. ground (arith, v.same x y);
  few = ground (arith, v.few, v.empty_locked i);
  held = λ x h. ground (arith, v.held x, v.held i, v.owner i, v.owner x);
  left = λ x h e. ground (arith, v.left x, v.left i);
}
Step-Inv s _ v (stores i k c) = record {
  owner = λ x h. ground (arith, v.owner x, v.owner i);
  stored = λ x h. ground (arith, v.fresh i k);
  fresh = λ x y h. ground (arith, v.fresh x y, v.owner x, v.owner i, v.empty_locked i);
  empty_locked = λ x h e. ground (arith, v.empty_locked x, v.empty_free, v.owner x, v.owner i);
  empty_free = λ h e. ground (arith, v.empty_free, v.owner i);
  same = λ x y h. ground (arith, v.same x y, v.fresh i k);
  few = ground (arith, v.few, v.empty_locked i);
  held = λ x h. ground (arith, v.held x, v.held i, v.owner i, v.owner x);
  left = λ x h e. ground (arith, v.left x, v.left i);
}

calls_again-Inv :
    (s : State) (i k : ℕ)
    → Inv s
    → s.caller i ≡ returned k
    → Inv (record s { caller = update s.caller i outside })
calls_again-Inv s i k v c = aside-Inv s i outside v (ap critical c) refl (λ h e. cc) (λ l h. cc)

Reach-Inv : {s : State} → Reach s → Inv s
Reach-Inv here = start-Inv
Reach-Inv (next {s} {t} r m) = Step-Inv s t (Reach-Inv r) m
Reach-Inv (calls_again {s} i k r c) = calls_again-Inv s i k (Reach-Inv r) c

-- In every state that the callers can reach, one object has been made at most; and two callers that
-- are back have the same object, it is the only one made, and the pointer owns it.
pub one_instance :
    {s : State}
    → Reach s
    → (s.constructed ≤ 1)
      × ((i j k l : ℕ)
          → s.caller i ≡ returned k
          → s.caller j ≡ returned l
          → (k ≡ l) × (s.uptr ≡ some k) × (s.constructed ≡ 1))
one_instance {s} r =
    let v = Reach-Inv r in
    (
      v.few,
      λ i j k l a b.
          (ground (arith, v.same i k a, v.same j l b), v.same i k a, v.stored k (v.same i k a)),
    )

owner_moves : {s : State} (j : ℕ) → critical (s.caller j) ≡ true → (t : State) × Step s t
owner_moves {s} j h = at (s.caller j) (s.uptr) refl refl h
  where
    at :
        (c : Caller) (o : Option ℕ)
        → s.caller j ≡ c
        → s.uptr ≡ o
        → critical c ≡ true
        → (t : State) × Step s t
    at holds none e u h = (_, constructs j e u)
    at holds (some k) e u h = (_, finds_locked j k e u)
    at (built k) o e u h = (_, stores j k e)
    at outside o e u h = cc
    at waits o e u h = cc
    at leaves o e u h = cc
    at (returned k) o e u h = cc

-- The callers do not lock each other out: in every state that they can reach, as long as one of
-- them is not back with its reference, one of them can take a step that is not a new call.
pub some_caller_moves :
    {s : State} → Reach s → (i : ℕ) → ((k : ℕ) → s.caller i ≢ returned k) → (t : State) × Step s t
some_caller_moves {s} r i h = at (s.caller i) (s.uptr) (s.mutex) refl refl refl
  where
    at :
        (c : Caller) (o m : Option ℕ)
        → s.caller i ≡ c
        → s.uptr ≡ o
        → s.mutex ≡ m
        → (t : State) × Step s t
    at outside none m e u l = (_, misses i e u)
    at outside (some k) m e u l = (_, finds i k e u)
    at waits o none e u l = (_, locks i e l)
    at waits o (some j) e u l = owner_moves j ((Reach-Inv r).held j l)
    at holds o m e u l = owner_moves i (ap critical e)
    at (built k) o m e u l = owner_moves i (ap critical e)
    at leaves none m e u l = absurd ((Reach-Inv r).left i e u)
    at leaves (some k) m e u l = (_, returns i k e u)
    at (returned k) o m e u l = absurd (h k e)
