-- ===== src/Text/Decimal.antt =====
-- `%d` and `std::stoi`: a 32-bit integer prints as a text that reads back as the same integer.
use instance_message.Base.{
  ℕ, zero, suc, ◌+◌, ◌-◌, length, ◌≤◌, ◌*◌, ◌/◌, ◌%◌, ◌^◌, ◌<◌, ◌≤◌, ◌≡◌, Bool, false, ◌&&◌, ◌||◌,
  Option, none, some, [], ◌∷◌, Bytes, ltb, leb, ◌==◌, if◌then◌else◌, Bool-cases, inl, inr, arith,
  two32, non_negative,
}

digits_from : ℕ → ℕ → Bytes → Bytes
digits_from zero n acc = acc
digits_from (suc f) n acc =
    let more = digits_from f (n / 10) ((b'0' + n % 10) ∷ acc) in
    if ltb n 10 then (b'0' + n % 10) ∷ acc else more

-- Ten digits are enough below 2 ^ 32.
unsigned_text : ℕ → Bytes
unfolding digits_from
unsigned_text n = digits_from 10 n []

-- `%d`
unfoldable pub format_d : ℕ → Bytes
unfolding unsigned_text
format_d w = if non_negative w then unsigned_text w else b'-' ∷ unsigned_text (two32 - w)

is_space : ℕ → Bool
is_space c = (c == b' ') || (leb 9 c && leb c 13)

is_digit : ℕ → Bool
is_digit c = leb b'0' c && leb c b'9'

skip_spaces : Bytes → Bytes
skip_spaces [] = []
skip_spaces (c ∷ rest) = if is_space c then skip_spaces rest else c ∷ rest

read_digits : Bytes → ℕ → ℕ
read_digits [] n = n
read_digits (c ∷ rest) n =
    let more = read_digits rest (10 * n + (c - b'0')) in if is_digit c then more else n

number_at : Bytes → Option ℕ
unfolding is_digit read_digits
number_at [] = none
number_at (c ∷ rest) = if is_digit c then some (read_digits (c ∷ rest) 0) else none

abbrev positive : Option ℕ → Option ℕ
positive none = none
positive (some n) = if ltb n (2 ^ 31) then some n else none

abbrev negative : Option ℕ → Option ℕ
negative none = none
negative (some n) = if leb n (2 ^ 31) then some ((two32 - n) % two32) else none

signed_at : Bytes → Option ℕ
unfolding number_at
signed_at [] = none
signed_at (c ∷ rest) =
    if c == b'-'
    then negative (number_at rest)
    else (if c == b'+' then positive (number_at rest) else positive (number_at (c ∷ rest)))

-- `std::stoi`; `none` is `invalid_argument` or `out_of_range`.
unfoldable pub stoi : Bytes → Option ℕ
unfolding is_space skip_spaces signed_at
stoi s = signed_at (skip_spaces s)

abbrev pow10 : ℕ → ℕ
pow10 zero = 1
pow10 (suc f) = 10 * pow10 f

-- The text starts with a digit.
Starts : Bytes → Type 0
Starts s = (c : ℕ) × (rest : Bytes) × (s ≡ c ∷ rest) × (b'0' ≤ c) × (c ≤ b'9')

digits_from-Starts : (f n : ℕ) (acc : Bytes) → Starts (digits_from (suc f) n acc)
unfolding Starts digits_from
digits_from-Starts zero n acc = elim (Bool-cases (ltb n 10)) [
  | inl small ↦ (b'0' + n % 10, acc, rw small, omega arith, omega arith)
  | inr big ↦ (b'0' + n % 10, acc, rw big, omega arith, omega arith)
]
digits_from-Starts (suc f) n acc = elim (Bool-cases (ltb n 10)) [
  | inl small ↦ (b'0' + n % 10, acc, rw small, omega arith, omega arith)
  | inr big ↦ rw big (digits_from-Starts f (n / 10) ((b'0' + n % 10) ∷ acc))
]

read_digits-digits_from :
    (f n : ℕ) (acc : Bytes)
    → n < pow10 (suc f)
    → read_digits (digits_from (suc f) n acc) 0 ≡ read_digits acc n
unfolding read_digits digits_from is_digit
read_digits-digits_from zero n acc h = ground arith
read_digits-digits_from (suc f) n acc h =
    ground (arith, read_digits-digits_from f (n / 10) ((b'0' + n % 10) ∷ acc))

number_at-unsigned_text : (n : ℕ) → n < two32 → number_at (unsigned_text n) ≡ some n
unfolding number_at unsigned_text is_digit Starts
number_at-unsigned_text n h =
    let (c, rest, e, lo, hi) = digits_from-Starts 9 n [] in
    let value : read_digits (digits_from 10 n []) 0 ≡ n =
      read_digits-digits_from 9 n [] (omega arith) in
    ground arith

-- A text that starts with a digit is read without a sign.
stoi-Starts : (s : Bytes) → Starts s → stoi s ≡ positive (number_at s)
unfolding stoi Starts is_digit
stoi-Starts s (c, rest, e, lo, hi) = ground arith

unsigned_text-Starts : (n : ℕ) → Starts (unsigned_text n)
unfolding unsigned_text
unsigned_text-Starts n = digits_from-Starts 9 n []

stoi-minus :
    (w : ℕ) → w < two32 → non_negative w ≡ false → stoi (b'-' ∷ unsigned_text (two32 - w)) ≡ some w
unfolding stoi
stoi-minus w h minus = ground (arith, number_at-unsigned_text (two32 - w))

-- `stoi` reads back what `%d` printed, for every 32-bit integer, negative ones included.
pub stoi-format_d : (w : ℕ) → w < two32 → stoi (format_d w) ≡ some w
unfolding format_d
stoi-format_d w h = elim (Bool-cases (non_negative w)) [
  | inl plus ↦ rw plus (
      ground (
        arith,
        stoi-Starts (unsigned_text w) (unsigned_text-Starts w),
        number_at-unsigned_text w h,
      ))
  | inr minus ↦ rw minus (stoi-minus w h minus)
]

length-digits_from : (f n : ℕ) (acc : Bytes) → length (digits_from f n acc) ≤ f + length acc
unfolding digits_from
length-digits_from zero n acc = omega arith
length-digits_from (suc f) n acc =
    ground (arith, length-digits_from f (n / 10) ((b'0' + n % 10) ∷ acc))

-- A printed integer has a sign and ten digits at most.
pub length-format_d : (w : ℕ) → length (format_d w) ≤ 11
unfolding format_d
length-format_d w = ground (arith, length-digits_from 10 w [], length-digits_from 10 (two32 - w) [])
