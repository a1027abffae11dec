-- ===== src/Decimal/Ranges.antt =====
-- What Atoi reads without an error is an int.
use be_code_redux.Base.{
  ℕ, suc, ◌≤◌, ◌<◌, Bool, true, false, Text, Option, none, some, leb, ltb, arith, inl, inr,
  Bool-cases,
}
use be_code_redux.Decimal.{
  ℤ, pos, negsuc, neg, int_limit, ranged, from_number, read_number, signed, atoi,
}

abbrev pub InRange : ℤ × Bool → Type 0
InRange (pos n, true) = n < int_limit
InRange (negsuc n, true) = suc n ≤ int_limit
InRange (pos n, false) = Unit
InRange (negsuc n, false) = Unit

neg-InRange : (n : ℕ) → n ≤ int_limit → InRange (neg n, true)
neg-InRange ℕ.zero h = omega arith
neg-InRange (suc n) h = h

ranged-InRange : (minus : Bool) (n : ℕ) → InRange (ranged minus n)
ranged-InRange true n = elim (Bool-cases (leb n int_limit)) [
  | inl e ↦ rw e (neg-InRange n (ground arith))
  | inr e ↦ rw e tt
]
ranged-InRange false n = elim (Bool-cases (ltb n int_limit)) [
  | inl e ↦ rw e (ground arith)
  | inr e ↦ rw e tt
]

pub atoi-InRange : (s : Text) → InRange (atoi s)
unfolding atoi
atoi-InRange s = go (signed s).0 (read_number (signed s).1)
  where
    go : (minus : Bool) (o : Option ℕ) → InRange (from_number minus o)
    go minus none = tt
    go minus (some n) = ranged-InRange minus n
