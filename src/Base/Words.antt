-- ===== src/Base/Words.antt =====
-- A 32-bit `int` is its bit pattern, a number below 2 ^ 32, little endian in memory.
use Prim.Native.Nat.{ℕ, zero, suc, ◌+◌, ◌-◌, ◌*◌, ◌/◌, ◌%◌, ◌^◌, ◌<◌}
use mathlib.Core.Path.{◌≡◌, refl}
use mathlib.Core.Bool.{Bool}
use mathlib.Core.List.{[], ◌∷◌, ◌++◌}
use mathlib.Core.Option.{Option, none, some}
use native.Mathlib.Omega.{arith}
use instance_message.Base.Tests.{ltb}
use instance_message.Base.Lists.{Bytes, length}

abbrev pub two32 : ℕ
two32 = 2 ^ 32

abbrev pub sub32 : ℕ → ℕ → ℕ
sub32 a b = (a + two32 - b) % two32

-- The sign bit is clear.
abbrev pub non_negative : ℕ → Bool
non_negative w = ltb w (2 ^ 31)

unfoldable pub int_bytes : ℕ → Bytes
int_bytes w = w % 256 ∷ w / 256 % 256 ∷ w / 65536 % 256 ∷ w / 16777216 % 256 ∷ []

-- `*(int*)(data + at)`; `none` is a read outside the buffer.
unfoldable pub int_at : ℕ → Bytes → Option ℕ
int_at zero (a ∷ b ∷ c ∷ d ∷ rest) = some (a + 256 * b + 65536 * c + 16777216 * d)
int_at zero _ = none
int_at (suc n) [] = none
int_at (suc n) (x ∷ rest) = int_at n rest

pub int_at-int_bytes :
    (w : ℕ) (rest : Bytes) → w < two32 → int_at zero (int_bytes w ++ rest) ≡ some w
unfolding int_at int_bytes
int_at-int_bytes w rest h = ground arith

pub int_at-skip :
    (xs rest : Bytes) (n : ℕ) → length xs ≡ n → int_at n (xs ++ rest) ≡ int_at zero rest
unfolding int_at
int_at-skip [] rest zero h = refl
int_at-skip [] rest (suc n) h = absurd (omega arith)
int_at-skip (x ∷ xs) rest zero h = absurd (omega arith)
int_at-skip (x ∷ xs) rest (suc n) h = int_at-skip xs rest n (omega arith)

pub length-int_bytes : (w : ℕ) → length (int_bytes w) ≡ 4
unfolding int_bytes
length-int_bytes w = refl
