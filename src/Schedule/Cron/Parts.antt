-- ===== src/Schedule/Cron/Parts.antt =====
-- What a part of a field stands for lies between the bounds of the field, and its step is an int.
use be_code_redux.Base.{
  ℕ, zero, suc, ◌≤◌, ◌<◌, Bool, true, false, not, ◌||◌, Text, codes, text_keyed, nat_keyed, ◌==◌,
  ltb, Result, ok, err, ◌>>=◌, ◌≡◌, ◌≢◌, refl, subst, arith, ◌⊎◌, inl, inr, Bool-cases,
}
use be_code_redux.Decimal.{ℤ, pos, negsuc, atoi, int_limit}
use be_code_redux.Decimal.Ranges.{InRange, atoi-InRange}
use be_code_redux.Schedule.Cron.{
  FieldError, endless, cut, read_step, int_gt, Span, range_span, value_span, span_of, stepped,
  inside, part_span,
}

abbrev IsInt : ℤ → Type 0
IsInt z = InRange (z, true)

-- The last value is the bound of the field or not below the first one.
abbrev IsSpan : ℕ → Span → Type 0
IsSpan hi s =
    (0 < s.step)
    × (s.step < int_limit)
    × IsInt s.first
    × ((s.last ≡ pos hi) ⊎ (int_gt s.first s.last ≡ false))

-- A result that is a good span, or an error of the text.
abbrev Checked : ℕ → Result FieldError Span → Type 0
Checked hi (ok s) = IsSpan hi s
Checked hi (err e) = e ≢ endless

int_gt_self : (z : ℤ) → int_gt z z ≡ false
int_gt_self (pos n) = ground arith
int_gt_self (negsuc n) = ground arith

module _ (hi : ℕ) (step : ℕ) (hp : 0 < step) (hl : step < int_limit) where
  range_span-Checked :
      (rng : Text) (a b : ℤ × Bool) → InRange a → Checked hi (range_span rng step a b)
  range_span-Checked rng (a, ok_a) (b, ok_b) ra =
      elim (Bool-cases (not ok_a || not ok_b || int_gt a b)) [
        | inl e ↦ rw e (λ k. cc)
        | inr e ↦
            let good : ok_a ≡ true = ground arith in
            rw e (hp, hl, subst (λ t. InRange (a, t)) good ra, inr (ground arith))
      ]

  value_span-Checked :
      (rng : Text) (n : ℤ × Bool) → InRange n → Checked hi (value_span rng hi step n)
  value_span-Checked rng (n, false) rn = λ k. cc
  value_span-Checked rng (n, true) rn = elim (Bool-cases (step == 1)) [
    | inl e ↦ rw e (hp, hl, rn, inr (int_gt_self n))
    | inr e ↦ rw e (hp, hl, rn, inl refl)
  ]

  span_of-Checked : (lo : ℕ) (rng : Text) → lo < int_limit → Checked hi (span_of lo hi rng step)
  unfolding span_of
  span_of-Checked lo rng small = elim (Bool-cases (rng == codes "*")) [
    | inl e ↦ rw e (hp, hl, small, inl refl)
    | inr e ↦ rw e (elim (Bool-cases (cut b'-' rng).2) [
      | inl k ↦ rw k (
          range_span-Checked rng (atoi (cut b'-' rng).0) (atoi (cut b'-' rng).1)
            (atoi-InRange (cut b'-' rng).0))
      | inr k ↦ rw k (value_span-Checked rng (atoi rng) (atoi-InRange rng))
    ])
  ]

stepped-Checked :
    (lo hi : ℕ) (part rng : Text) (z : ℤ × Bool)
    → lo < int_limit
    → InRange z
    → Checked hi (stepped lo hi part rng (read_step z))
unfolding stepped
stepped-Checked lo hi part rng (pos zero, true) small r = λ k. cc
stepped-Checked lo hi part rng (pos (suc n), true) small r =
    span_of-Checked hi (suc n) (omega arith) r lo rng small
stepped-Checked lo hi part rng (negsuc n, true) small r = λ k. cc
stepped-Checked lo hi part rng (pos zero, false) small r = λ k. cc
stepped-Checked lo hi part rng (pos (suc n), false) small r = λ k. cc
stepped-Checked lo hi part rng (negsuc n, false) small r = λ k. cc

-- A span inside the bounds of its field.
pub record IsInside (lo hi : ℕ) (s : Span) : Type 0 where
  pub from : ℕ
  pub to : ℕ
  pub first_is : s.first ≡ pos from
  pub last_is : s.last ≡ pos to
  pub above : lo ≤ from
  pub below : to ≤ hi
  pub int : from < int_limit
  pub moves : 0 < s.step
  pub step_int : s.step < int_limit

abbrev pub Bounded : ℕ → ℕ → Result FieldError Span → Type 0
Bounded lo hi (ok s) = IsInside lo hi s
Bounded lo hi (err e) = e ≢ endless

inside-Bounded :
    (part : Text) (lo hi : ℕ) (first last : ℤ) (step : ℕ)
    → IsSpan hi (record { first = first; last = last; step = step })
    → Bounded lo hi (inside part lo hi (record { first = first; last = last; step = step }))
inside-Bounded part lo hi (negsuc m) last step h = λ k. cc
inside-Bounded part lo hi (pos m) (negsuc n) step (hp, hl, hm, inl e) = cc
inside-Bounded part lo hi (pos m) (negsuc n) step (hp, hl, hm, inr e) = cc
inside-Bounded part lo hi (pos m) (pos n) step (hp, hl, hm, c) =
    elim (Bool-cases (ltb m lo || ltb hi n)) [
      | inl e ↦ rw e (λ k. cc)
      | inr e ↦ rw e (record {
        from = m;
        to = n;
        first_is = refl;
        last_is = refl;
        above = ground arith;
        below = ground arith;
        int = hm;
        moves = hp;
        step_int = hl;
      })
    ]

bind-Bounded :
    (part : Text) (lo hi : ℕ) (r : Result FieldError Span)
    → Checked hi r
    → Bounded lo hi (r >>= inside part lo hi)
bind-Bounded part lo hi (ok s) h = inside-Bounded part lo hi s.first s.last s.step h
bind-Bounded part lo hi (err e) h = h

pub part_span-Bounded :
    (lo hi : ℕ) (part : Text) → lo < int_limit → Bounded lo hi (part_span lo hi part)
unfolding part_span
part_span-Bounded lo hi part small = elim (Bool-cases (cut b'/' part).2) [
  | inl e ↦ rw e (
      bind-Bounded part lo hi
        (stepped lo hi part (cut b'/' part).0 (read_step (atoi (cut b'/' part).1)))
        (stepped-Checked lo hi part (cut b'/' part).0 (atoi (cut b'/' part).1) small
          (atoi-InRange (cut b'/' part).1)))
  | inr e ↦ rw e (
      bind-Bounded part lo hi (span_of lo hi part 1)
        (span_of-Checked hi 1 (omega arith) (omega arith) lo part small))
]
