-- ===== src/Client/Keeps.antt =====
-- What the handlers and slots of ckernel.cpp keep true, by the way in which they are put together.
use instance_message.Base.{◌≡◌, subst, Option, none, some, some-injective, arith}
use instance_message.Client.State.{Client, ◌>>=◌}

abbrev pub Keeps : (Client → Type 0) → (Client → Option Client) → Type 0
Keeps P f = (c c' : Client) → P c → f c ≡ some c' → P c'

module _ (P : Client → Type 0) where
  -- An optional step before the rest.
  pub step-Keeps {ℓ} :
      {A : Type ℓ} (o : Option A) (f : A → Client → Option Client)
      → ((a : A) → Keeps P (f a))
      → Keeps P (λ c. o >>= λ a. f a c)
  step-Keeps none f k c c' h e = ground arith
  step-Keeps (some a) f k c c' h e = k a c c' h e

  pub total-Keeps :
      (f : Client → Client) → ((c : Client) → P c → P (f c)) → Keeps P (λ c. some (f c))
  total-Keeps f k c c' h e = subst P (some-injective (f c) c' e) (k c h)
