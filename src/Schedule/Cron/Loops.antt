-- ===== src/Schedule/Cron/Loops.antt =====
-- A counting loop that returns at its first result.
use be_code_redux.Base.{
  ℕ, zero, suc, ◌+◌, ◌≤◌, ◌<◌, Option, none, some, ◌∙◌, ap, ◌≡◌, refl, sym, arith, ◌⊎◌, inl, inr,
  Option-cases, some-injective, ltb, Bool-cases,
}

-- for i := i; i < i + rounds; i++, which returns what `f` finds.
unfoldable pub first_from : (ℕ → Option ℕ) → ℕ → ℕ → Option ℕ
first_from f i zero = none
first_from f i (suc rounds) = elim (f i) [ some t ↦ some t | none ↦ first_from f (suc i) rounds ]

first_from-go :
    (f : ℕ → Option ℕ) (i rounds : ℕ)
    → f i ≡ none
    → first_from f i (suc rounds) ≡ first_from f (suc i) rounds
unfolding first_from
first_from-go f i rounds e = rw (e, first_from) refl

first_from-stop :
    (f : ℕ → Option ℕ) (i rounds t : ℕ) → f i ≡ some t → first_from f i (suc rounds) ≡ some t
unfolding first_from
first_from-stop f i rounds t e = rw (e, first_from) refl

eq_or_lt : (i j : ℕ) → i ≤ j → (i ≡ j) ⊎ (suc i ≤ j)
eq_or_lt i j h = elim (Bool-cases (ltb i j)) [
  | inr e ↦ inl (ground arith)
  | inl e ↦ inr (ground arith)
]

-- The place of the first result.
pub record FirstAt (f : ℕ → Option ℕ) (i rounds t : ℕ) : Type 0 where
  pub place : ℕ
  pub from : i ≤ place
  pub before : place < i + rounds
  pub found : f place ≡ some t
  pub earlier : (j : ℕ) → i ≤ j → j < place → f j ≡ none

pub first_from-FirstAt :
    (f : ℕ → Option ℕ) (i rounds t : ℕ) → first_from f i rounds ≡ some t → FirstAt f i rounds t
unfolding first_from
first_from-FirstAt f i zero t h = cc
first_from-FirstAt f i (suc rounds) t h = elim (Option-cases (f i)) [
  | inr (u, e) ↦ record {
    place = i;
    from = omega arith;
    before = omega arith;
    found = e ∙ ap some (some-injective (sym (first_from-stop f i rounds u e) ∙ h));
    earlier = λ j a b. absurd (omega arith);
  }
  | inl e ↦
      let later = first_from-FirstAt f (suc i) rounds t (sym (first_from-go f i rounds e) ∙ h) in
      record {
        place = later.place;
        from = omega (arith, later.from);
        before = omega (arith, later.before);
        found = later.found;
        earlier = λ j a b. elim (eq_or_lt i j a) [
          | inl same ↦ ap f (sym same) ∙ e
          | inr more ↦ later.earlier j more b
        ];
      }
]

pub first_from-none :
    (f : ℕ → Option ℕ) (i rounds : ℕ)
    → first_from f i rounds ≡ none
    → (j : ℕ) → i ≤ j
    → j < i + rounds
    → f j ≡ none
first_from-none f i zero h j a b = absurd (omega arith)
first_from-none f i (suc rounds) h j a b = elim (Option-cases (f i)) [
  | inr (u, e) ↦ cc (first_from-stop f i rounds u e, h)
  | inl e ↦ elim (eq_or_lt i j a) [
    | inl same ↦ ap f (sym same) ∙ e
    | inr more ↦
        first_from-none f (suc i) rounds (sym (first_from-go f i rounds e) ∙ h) j more (omega arith)
  ]
]
