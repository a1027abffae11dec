-- ===== src/Schedule/Spec/Bisection.antt =====
-- transitionNear: its loop ends, and where the offset changes once, it finds the change.
use be_code_redux.Base.{
  ℕ, zero, suc, ◌+◌, ◌-◌, ◌*◌, ◌/◌, ◌%◌, ◌≤◌, ◌<◌, true, false, nat_keyed, ◌==◌, ltb, some,
  some-injective, ◌∙◌, ap, ◌≡◌, refl, sym, arith, Bool-cases, inl, inr,
}
use be_code_redux.Schedule.Spec.{Zone, second, hour, bisect, halvings, truncated, transition_near}

bisect-stop :
    (z : Zone) (off fuel lo hi : ℕ)
    → ltb second (hi - lo) ≡ false
    → bisect z off (suc fuel) lo hi ≡ some hi
unfolding bisect
bisect-stop z off fuel lo hi e = rw (e, bisect) refl

bisect-up :
    (z : Zone) (off fuel lo hi : ℕ)
    → ltb second (hi - lo) ≡ true
    → (z.offset_at (lo + (hi - lo) / 2) == off) ≡ true
    → bisect z off (suc fuel) lo hi ≡ bisect z off fuel (lo + (hi - lo) / 2) hi
unfolding bisect
bisect-up z off fuel lo hi e k = rw (e, bisect) (rw (k, bisect) refl)

bisect-down :
    (z : Zone) (off fuel lo hi : ℕ)
    → ltb second (hi - lo) ≡ true
    → (z.offset_at (lo + (hi - lo) / 2) == off) ≡ false
    → bisect z off (suc fuel) lo hi ≡ bisect z off fuel lo (lo + (hi - lo) / 2)
unfolding bisect
bisect-down z off fuel lo hi e k = rw (e, bisect) (rw (k, bisect) refl)

-- What so many halvings take down to a second.
abbrev reach : ℕ → ℕ
reach zero = second
reach (suc k) = reach k + reach k

pub bisect-ends :
    (z : Zone) (off k lo hi : ℕ)
    → hi - lo ≤ reach k
    → (t : ℕ) × (bisect z off (suc k) lo hi ≡ some t)
bisect-ends z off zero lo hi h = (hi, bisect-stop z off 0 lo hi (ground arith))
bisect-ends z off (suc k) lo hi h =
    let mid = lo + (hi - lo) / 2 in
    elim (Bool-cases (ltb second (hi - lo))) [
      | inr e ↦ (hi, bisect-stop z off (suc k) lo hi e)
      | inl e ↦ elim (Bool-cases (z.offset_at mid == off)) [
        | inl up ↦
            let (t, m) = bisect-ends z off k mid hi (omega arith) in
            (t, bisect-up z off (suc k) lo hi e up ∙ m)
        | inr down ↦
            let (t, m) = bisect-ends z off k lo mid (omega arith) in
            (t, bisect-down z off (suc k) lo hi e down ∙ m)
      ]
    ]

-- Between `lo` and `hi` the offset is `off` before the instant `t` and another one from it on.
abbrev pub ChangesAt : Zone → ℕ → ℕ → ℕ → ℕ → Type 0
ChangesAt z off lo hi t = (u : ℕ) → lo ≤ u → u ≤ hi → (z.offset_at u == off) ≡ ltb u t

bisect-finds :
    (z : Zone) (off fuel lo hi t out : ℕ)
    → lo < t
    → t ≤ hi
    → ChangesAt z off lo hi t
    → bisect z off fuel lo hi ≡ some out
    → (t ≤ out) × (out < t + second)
unfolding bisect
bisect-finds z off zero lo hi t out a b c h = cc
bisect-finds z off (suc fuel) lo hi t out a b c h =
    let mid = lo + (hi - lo) / 2 in
    elim (Bool-cases (ltb second (hi - lo))) [
      | inr e ↦
          let same : hi ≡ out = some-injective (sym (bisect-stop z off fuel lo hi e) ∙ h) in
          rw (← same) (b, ground arith)
      | inl e ↦
          let before : (z.offset_at mid == off) ≡ ltb mid t = c mid (omega arith) (omega arith) in
          elim (Bool-cases (z.offset_at mid == off)) [
            | inl up ↦
                bisect-finds z off fuel mid hi t out (ground (arith, before)) b
                  (λ u m n. c u (omega (arith, m)) n) (sym (bisect-up z off fuel lo hi e up) ∙ h)
            | inr down ↦
                bisect-finds z off fuel lo mid t out a (ground (arith, before))
                  (λ u m n. c u m (omega (arith, n)))
                  (sym (bisect-down z off fuel lo hi e down) ∙ h)
          ]
    ]

-- The loop of transitionNear comes down to a second within 16 rounds, whatever the zone.
pub transition_near-ends :
    (z : Zone) (t : ℕ)
    → (hi : ℕ) × (bisect z (z.offset_at (t - 3 * hour)) halvings (t - 3 * hour) (t + 3 * hour)
        ≡ some hi)
transition_near-ends z t =
    bisect-ends z (z.offset_at (t - 3 * hour)) 15 (t - 3 * hour) (t + 3 * hour) (omega arith)

-- Where the offset of a zone changes once in the three hours before and behind `t`, on a whole
-- second, transitionNear returns the instant of the change.
pub transition_near-found :
    (z : Zone) (t change : ℕ)
    → t - 3 * hour < change
    → change ≤ t + 3 * hour
    → change % second ≡ 0
    → ChangesAt z (z.offset_at (t - 3 * hour)) (t - 3 * hour) (t + 3 * hour) change
    → transition_near z t ≡ change
unfolding transition_near
transition_near-found z t change a b whole c =
    let (hi, e) = transition_near-ends z t in
    let (above, near) =
      bisect-finds z (z.offset_at (t - 3 * hour)) halvings (t - 3 * hour) (t + 3 * hour) change hi a
        b c e in
    ap (truncated t) e ∙ floored hi change above near whole
  where
    floored : (hi t : ℕ) → t ≤ hi → hi < t + second → t % second ≡ 0 → hi - hi % second ≡ t
    floored hi t a b w = omega arith
