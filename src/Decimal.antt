-- ===== src/Decimal.antt =====
-- strconv.Itoa and strconv.Atoi on code points, with Go's 64-bit int.
pub mod RoundTrip
pub mod Ranges
use be_code_redux.Base.{
  ℕ, zero, suc, ◌+◌, ◌-◌, ◌*◌, ◌/◌, ◌%◌, ◌^◌, List, [], ◌∷◌, ◌++◌, Bool, true, false, ◌&&◌, Text,
  Option, none, some, if◌then◌else◌, ltb, leb, ◌==◌, nat_keyed, codes, refl, ◌≡◌,
}

-- `negsuc n` is -(n + 1).
pub data ℤ : Type 0 where
  pos : ℕ → ℤ
  negsuc : ℕ → ℤ

abbrev pub neg : ℕ → ℤ
neg zero = pos 0
neg (suc n) = negsuc n

abbrev pub int_limit : ℕ
int_limit = 2 ^ 63

-- The digits of a number, in as many rounds as `fuel` allows.
unfoldable pub digits : ℕ → ℕ → Text
digits zero n = []
digits (suc fuel) n =
    let rest = digits fuel (n / 10) ++ (b'0' + n % 10) ∷ [] in
    if ltb n 10 then (b'0' + n) ∷ [] else rest

-- strconv.Itoa of a number that is not negative; a round takes a digit, so `n + 1` rounds do.
unfoldable pub itoa : ℕ → Text
unfolding digits
itoa n = digits (suc n) n

-- strconv.Itoa of an int that a sum of two ints has wrapped round.
unfoldable pub int_text : ℕ → Text
unfolding itoa
int_text n = if ltb n int_limit then itoa n else b'-' ∷ itoa (2 ^ 64 - n)

abbrev pub is_digit : ℕ → Bool
is_digit c = leb b'0' c && leb c b'9'

unfoldable pub read_digits : ℕ → Text → Option ℕ
read_digits n [] = some n
read_digits n (c ∷ s) =
    let rest = read_digits (n * 10 + (c - b'0')) s in if is_digit c then rest else none

-- At least one digit.
unfoldable pub read_number : Text → Option ℕ
unfolding read_digits
read_number [] = none
read_number (c ∷ s) = read_digits 0 (c ∷ s)

-- The text behind a sign, and whether the sign is a minus.
abbrev pub signed : Text → Bool × Text
signed [] = (false, [])
signed (c ∷ s) = if c == b'-' then (true, s) else if c == b'+' then (false, s) else (false, c ∷ s)

-- An int out of its range is its bound, with an error.
abbrev pub ranged : Bool → ℕ → ℤ × Bool
ranged true n = if leb n int_limit then (neg n, true) else (neg int_limit, false)
ranged false n = if ltb n int_limit then (pos n, true) else (pos (int_limit - 1), false)

abbrev pub from_number : Bool → Option ℕ → ℤ × Bool
from_number minus none = (pos 0, false)
from_number minus (some n) = ranged minus n

-- strconv.Atoi: the value, and whether there is no error.
unfoldable pub atoi : Text → ℤ × Bool
unfolding read_number
atoi s = from_number (signed s).0 (read_number (signed s).1)

itoa_runs : itoa 1203 ≡ codes "1203"
unfolding itoa
itoa_runs = refl

atoi_runs : atoi (codes "-0120") ≡ (negsuc 119, true)
unfolding atoi
atoi_runs = refl

atoi_clamps : atoi (codes "9223372036854775808") ≡ (pos 9223372036854775807, false)
unfolding atoi
atoi_clamps = refl
