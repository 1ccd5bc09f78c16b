-- ===== src/Text.antt =====
-- C strings and the C and C++ library calls on them that both programs make: reading up to the
-- NUL, `strcpy_s`, `sprintf_s` into a bounded array, `%d` and `std::stoi`.
pub mod Decimal
use instance_message.Base.{
  lt→ltb, length-append, length-drop, ◌⊎◌, inl, inr, Bool-cases, ℕ, suc, ◌+◌, ◌-◌, ◌%◌, ◌<◌, ◌≤◌,
  ◌≡◌, refl, Option, none, some, [], ◌∷◌, ◌++◌, append_assoc, Bytes, length, drop, ltb, ◌==◌,
  if◌then◌else◌, arith,
}

abbrev pub consed : ℕ → Option Bytes → Option Bytes
consed b none = none
consed b (some s) = some (b ∷ s)

-- The C string that starts a buffer; `none` when the buffer ends before a NUL.
unfoldable pub c_str : Bytes → Option Bytes
c_str [] = none
c_str (b ∷ rest) = if b == 0 then some [] else consed b (c_str rest)

-- The C string at an offset of a buffer.
abbrev pub c_str_at : ℕ → Bytes → Option Bytes
c_str_at at buffer = c_str (drop at buffer)

-- `strcpy_s(dst, size, src)` with `size` the length of `dst`: `none` is a call of the
-- invalid-parameter handler. The bytes behind the copied NUL stay.
unfoldable pub strcpy_s : Bytes → Bytes → Option Bytes
strcpy_s dst src =
    if ltb (length src) (length dst) then some (src ++ (0 ∷ drop (suc (length src)) dst)) else none

-- `sprintf_s` into an array of `capacity` chars, given the formatted text.
unfoldable pub sprintf_s : ℕ → Bytes → Option Bytes
sprintf_s capacity text = if ltb (length text) capacity then some text else none

-- A text with no argument behind it, used as a format: `%%` prints `%`, and any other conversion
-- reads an argument that was not passed.
unfoldable pub format_only : Bytes → Option Bytes
format_only [] = some []
format_only (c ∷ []) = if c == b'%' then none else some (c ∷ [])
format_only (c ∷ d ∷ rest) =
    let plain = consed c (format_only (d ∷ rest)) in
    let escaped = consed b'%' (format_only rest) in
    if c == b'%' then (if d == b'%' then escaped else none) else plain

-- Every byte of a C string differs from NUL.
abbrev pub NoNul : Bytes → Type 0
NoNul [] = Unit {0}
NoNul (b ∷ s) = (1 ≤ b) × NoNul s

pub c_str-append : (s rest : Bytes) → NoNul s → c_str (s ++ (0 ∷ rest)) ≡ some s
unfolding c_str
c_str-append [] rest h = refl
c_str-append (b ∷ s) rest h = ground (arith, c_str-append s rest h.1)

-- What is read ends before the first NUL and fits the buffer.
pub c_str-NoNul : (buffer s : Bytes) → c_str buffer ≡ some s → NoNul s × (length s < length buffer)
unfolding c_str
c_str-NoNul [] s h = ground arith
c_str-NoNul (b ∷ rest) [] h = ground arith
c_str-NoNul (b ∷ rest) (x ∷ s) h = ground (arith, c_str-NoNul rest s)

-- A copy that fits reads back as the source.
pub strcpy_s-reads :
    (dst src rest : Bytes) {out : Bytes}
    → NoNul src
    → strcpy_s dst src ≡ some out
    → c_str (out ++ rest) ≡ some src
unfolding strcpy_s
strcpy_s-reads dst src rest clean h = ground (
  arith,
  c_str-append src (drop (suc (length src)) dst ++ rest) clean,
  regroup src (drop (suc (length src)) dst) rest,
)
  where
    regroup : (s t r : Bytes) → ((s ++ (0 ∷ t)) ++ r) ≡ s ++ (0 ∷ (t ++ r))
    regroup s t r = append_assoc s (0 ∷ t) r

-- A text shorter than the array is copied; the array keeps its length and reads back as the text.
pub strcpy_s-fits :
    (dst src : Bytes)
    → length src < length dst
    → NoNul src
    → (array : Bytes) × (strcpy_s dst src ≡ some array)
      × (length array ≡ length dst)
      × (c_str array ≡ some src)
unfolding strcpy_s
strcpy_s-fits dst src h clean = (
  src ++ (0 ∷ drop (suc (length src)) dst),
  rw (lt→ltb _ _ h) refl,
  omega (
    arith,
    length-append src (0 ∷ drop (suc (length src)) dst),
    length-drop (suc (length src)) dst,
  ),
  c_str-append src _ clean,
)

-- What is printed is the text itself, where it fits.
pub sprintf_s-cases :
    (capacity : ℕ) (text : Bytes)
    → (sprintf_s capacity text ≡ none) ⊎ (sprintf_s capacity text ≡ some text)
unfolding sprintf_s
sprintf_s-cases capacity text = elim (Bool-cases (ltb (length text) capacity)) [
  | inl fits ↦ inr (rw fits)
  | inr long ↦ inl (rw long)
]
