-- ===== src/Decimal/RoundTrip.antt =====
-- What Itoa writes: digits, which Atoi reads back.
use be_code_redux.Base.{
  ℕ, zero, suc, ◌+◌, ◌-◌, ◌*◌, ◌/◌, ◌%◌, ◌<◌, [], ◌∷◌, ◌++◌, true, false, Text, some, ltb,
  nat_keyed, refl, ◌≡◌, ◌≢◌, ap, ◌∙◌, All, All-append, arith, Bool-cases, inl, inr,
}
use be_code_redux.Decimal.{
  pos, digits, itoa, int_limit, is_digit, read_digits, read_number, signed, from_number, atoi,
}

abbrev pub IsDigit : ℕ → Type 0
IsDigit c = is_digit c ≡ true

digits-IsDigit : (fuel n : ℕ) → All IsDigit (digits fuel n)
unfolding digits
digits-IsDigit zero n = tt
digits-IsDigit (suc fuel) n = elim (Bool-cases (ltb n 10)) [
  | inl e ↦ rw e (ground arith, tt)
  | inr e ↦ rw e (
      All-append IsDigit (digits fuel (n / 10)) ((b'0' + n % 10) ∷ [])
        (digits-IsDigit fuel (n / 10)) (ground arith, tt))
]

pub itoa-IsDigit : (n : ℕ) → All IsDigit (itoa n)
unfolding itoa
itoa-IsDigit n = digits-IsDigit (suc n) n

read_digits-snoc :
    (m : ℕ) (s : Text) (d n : ℕ)
    → read_digits m s ≡ some n
    → IsDigit d
    → read_digits m (s ++ d ∷ []) ≡ some (n * 10 + (d - b'0'))
unfolding read_digits
read_digits-snoc m [] d n h k = ground arith
read_digits-snoc m (c ∷ s) d n h k = elim (Bool-cases (is_digit c)) [
  | inl e ↦ rw e (read_digits-snoc (m * 10 + (c - b'0')) s d n (ground arith) k)
  | inr e ↦ absurd (ground arith)
]

read_digits-digits : (fuel n : ℕ) → n < fuel → read_digits 0 (digits fuel n) ≡ some n
unfolding digits
read_digits-digits zero n h = absurd (omega arith)
read_digits-digits (suc fuel) n h = elim (Bool-cases (ltb n 10)) [
  | inl e ↦ rw e (unfold read_digits in ground arith)
  | inr e ↦ rw e (
      read_digits-snoc 0 (digits fuel (n / 10)) (b'0' + n % 10) (n / 10)
        (read_digits-digits fuel (n / 10) (ground arith)) (ground arith)
      ∙ ap some (omega arith))
]

snoc-ne-nil : (l : Text) (d : ℕ) → l ++ d ∷ [] ≢ []
snoc-ne-nil [] d h = cc
snoc-ne-nil (c ∷ l) d h = cc

digits-ne-nil : (fuel n : ℕ) → digits (suc fuel) n ≢ []
unfolding digits
digits-ne-nil fuel n = elim (Bool-cases (ltb n 10)) [
  | inl e ↦ rw e (λ h. cc)
  | inr e ↦ rw e (snoc-ne-nil (digits fuel (n / 10)) (b'0' + n % 10))
]

pub itoa-ne-nil : (n : ℕ) → itoa n ≢ []
unfolding itoa
itoa-ne-nil n = digits-ne-nil n n

read_number-digits : (s : Text) (n : ℕ) → s ≢ [] → read_digits 0 s ≡ some n → read_number s ≡ some n
unfolding read_number
read_number-digits [] n h k = absurd (h refl)
read_number-digits (c ∷ s) n h k = k

signed_digits : (s : Text) → All IsDigit s → signed s ≡ (false, s)
signed_digits [] h = refl
signed_digits (c ∷ s) (d, h) = ground arith

-- Atoi reads what Itoa writes.
pub atoi-itoa : (n : ℕ) → n < int_limit → atoi (itoa n) ≡ (pos n, true)
unfolding atoi
atoi-itoa n h =
    let read : read_number (itoa n) ≡ some n =
      read_number-digits (itoa n) n (itoa-ne-nil n)
        (unfold itoa in read_digits-digits (suc n) n (omega arith)) in
    ap (λ r. from_number r.0 (read_number r.1)) (signed_digits (itoa n) (itoa-IsDigit n))
    ∙ ap (from_number false) read
    ∙ ground arith
