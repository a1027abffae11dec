-- ===== src/Tools/Edits/Once.antt =====
-- What an edit replaces.
use be_code_redux.Base.{
  ℕ, zero, suc, ◌-◌, ◌≤◌, [], ◌∷◌, ◌++◌, false, Text, text_keyed, nat_keyed, ◌==◌, ok, err,
  ok-injective, has_prefix, has_prefix-append, has_prefix-split, length, drop, Bool-cases, inl, inr,
  ◌≡◌, ◌≢◌, refl, sym, ap, ◌∙◌, arith,
}
use be_code_redux.Tools.Edits.{not_found, count_from, count, replace_first, if_once, edited}

module _ (old : Text) where
  -- No place of the text matches.
  abbrev pub IsAbsent : Text → Type 0
  IsAbsent s = (x y : Text) → s ≢ x ++ (old ++ y)

  -- The text `u` stands before the first match in `s`, and `v` behind it.
  pub record IsFirstMatch (s u v : Text) : Type 0 where
    pub whole : s ≡ u ++ (old ++ v)
    pub leftmost : (x y : Text) → s ≡ x ++ (old ++ y) → length u ≤ length x

  drop-append : (p s : Text) → drop (length p) (p ++ s) ≡ s
  drop-append [] s = refl
  drop-append (c ∷ p) s = drop-append p s

  count_from-append : (p s : Text) → count_from old (length p) (p ++ s) ≡ count_from old 0 s
  unfolding count_from
  count_from-append [] s = refl
  count_from-append (c ∷ p) s = count_from-append p s

  not_here :
      (c : ℕ) (s x y : Text)
      → has_prefix (c ∷ s) old ≡ false
      → c ∷ s ≡ x ++ (old ++ y)
      → (x' : Text) × (x ≡ c ∷ x') × (s ≡ x' ++ (old ++ y))
  not_here c s [] y e h = cc (ap (λ t. has_prefix t old) h, has_prefix-append old y, e)
  not_here c s (d ∷ x) y e h = (x, cc (h), cc (h))

  count-IsAbsent : (s : Text) → old ≢ [] → count old s ≡ 0 → IsAbsent s
  unfolding count_from
  count-IsAbsent [] full h x y e = nil x y e
    where
      nil : (x y : Text) → [] ≡ x ++ (old ++ y) → ⊥
      nil [] y e = no_text old full e
        where
          no_text : (o : Text) → o ≢ [] → [] ≡ o ++ y → ⊥
          no_text [] full e = full refl
          no_text (c ∷ o) full e = cc (e)
      nil (c ∷ x) y e = cc (e)
  count-IsAbsent (c ∷ s) full h x y e = elim (Bool-cases (has_prefix (c ∷ s) old)) [
    | inl here ↦ absurd (no_suc (rw here at h))
    | inr miss ↦
        let (x', f, g) = not_here c s x y miss e in count-IsAbsent s full (rw miss at h) x' y g
  ]
    where
      no_suc : {n : ℕ} → suc n ≡ 0 → ⊥
      no_suc e = omega (arith, e)

  tail_count :
      (o : Text) (c : ℕ) (s r : Text)
      → o ≢ []
      → c ∷ s ≡ o ++ r
      → count_from old (length o - 1) s ≡ count old r
  tail_count [] c s r full e = absurd (full refl)
  tail_count (d ∷ o) c s r full e =
      let rest : s ≡ o ++ r = cc (e) in
      let size : suc (length o) - 1 ≡ length o = omega arith in
      ap (λ n. count_from old n s) size
      ∙ ap (count_from old (length o)) rest
      ∙ count_from-append o r

  replaced :
      (new s : Text)
      → old ≢ []
      → count old s ≡ 1
      → (u v : Text) × IsFirstMatch s u v
        × (replace_first old new s ≡ u ++ (new ++ v))
        × (count old v ≡ 0)
  unfolding count_from replace_first
  replaced new [] full h = absurd (omega (arith, h))
  replaced new (c ∷ s) full h = elim (Bool-cases (has_prefix (c ∷ s) old)) [
    | inl here ↦
        let (r, e) = has_prefix-split (c ∷ s) old here in
        let zero_left : count_from old (length old - 1) s ≡ 0 = omega (arith, rw here at h) in
        rw here (
          [],
          r,
          record { whole = e; leftmost = λ x y f. omega arith },
          ap (λ t. new ++ drop (length old) t) e ∙ ap (λ t. new ++ t) (drop-append old r),
          sym (tail_count old c s r full e) ∙ zero_left,
        )
    | inr miss ↦
        let (u, v, first, text, none_left) = replaced new s full (rw miss at h) in
        rw miss (
          c ∷ u,
          v,
          record {
            whole = ap (λ t. c ∷ t) first.whole;
            leftmost = λ x y f. farther u v first x y (not_here c s x y miss f);
          },
          ap (λ t. c ∷ t) text,
          none_left,
        )
  ]
    where
      farther :
          (u v : Text)
          → IsFirstMatch s u v
          → (x y : Text) → (x' : Text) × (x ≡ c ∷ x') × (s ≡ x' ++ (old ++ y))
          → suc (length u) ≤ length x
      farther u v first x y (x', f, g) = omega (arith, first.leftmost x' y g, ap length f)

-- Where an edit is accepted, the text is replaced where it first matches, what stands before and
-- behind stays, and no match lies behind the replaced one; where it is refused because there is no
-- match, no place of the file matches.
pub edited-once :
    (old new s : Text)
    → ((t : Text)
        → edited old new s ≡ ok t
        → (u : Text) × (v : Text) × IsFirstMatch old s u v
          × (t ≡ u ++ (new ++ v))
          × (count old v ≡ 0))
      × (edited old new s ≡ err not_found → IsAbsent old s)
unfolding edited
edited-once old new s = elim (Bool-cases (old == [])) [
  | inl e ↦ rw e (λ t h. cc, λ h. cc)
  | inr e ↦ rw e (go (full e) (count old s) refl)
]
  where
    full : (old == []) ≡ false → old ≢ []
    full e same = cc (e, ap (λ o. o == []) same)

    go :
        old ≢ []
        → (n : ℕ) → count old s ≡ n
        → ((t : Text)
            → if_once old new s n ≡ ok t
            → (u : Text) × (v : Text) × IsFirstMatch old s u v
              × (t ≡ u ++ (new ++ v))
              × (count old v ≡ 0))
          × (if_once old new s n ≡ err not_found → IsAbsent old s)
    go some_text zero e = (λ t h. cc, λ h. count-IsAbsent old s some_text e)
    go some_text (suc zero) e = (
      λ t h.
          let (u, v, first, text, none_left) = replaced old new s some_text e in
          (u, v, first, sym (ok-injective h) ∙ text, none_left),
      λ h. cc,
    )
    go some_text (suc (suc n)) e = (λ t h. cc, λ h. cc)
