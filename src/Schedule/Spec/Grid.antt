-- ===== src/Schedule/Spec/Grid.antt =====
-- The due times of an interval.
use native.Mathlib.Nat.{mod-lt, div-add-mod', mul-le-mul_right}
use be_code_redux.Base.{
  ℕ, ◌+◌, ◌-◌, ◌*◌, ◌/◌, ◌%◌, ◌≤◌, ◌<◌, ltb, leb, ◌≡◌, arith, Bool-cases, inl, inr,
}
use be_code_redux.Schedule.Spec.{next_every}

-- One of the instants `d` apart behind the anchor.
pub record IsDue (d anchor t : ℕ) : Type 0 where
  pub times : ℕ
  pub counted : t ≡ anchor + (times + 1) * d

division : (n d : ℕ) → 0 < d → (n / d * d ≤ n) × (n < n / d * d + d)
division n d h =
    let cut : n / d * d + n % d ≡ n = div-add-mod' n d in
    let small : n % d < d = mod-lt n h in (omega (arith, cut), omega (arith, cut, small))

-- Fewer multiples than the ones that pass `n` do not pass it.
division-least : (n d m : ℕ) → 0 < d → n < (m + 1) * d → (n / d + 1) * d ≤ (m + 1) * d
division-least n d m h b = elim (Bool-cases (leb (n / d) m)) [
  | inl e ↦ mul-le-mul_right d (ground arith)
  | inr e ↦
      let low : (m + 1) * d ≤ n / d * d = mul-le-mul_right d (ground arith) in
      absurd (omega (arith, b, low, (division n d h).0))
]

-- Next of an interval is the earliest of its instants that is behind `after`.
pub next_every-least :
    (d anchor after : ℕ)
    → 0 < d
    → IsDue d anchor (next_every d anchor after)
      × (after < next_every d anchor after)
      × ((t : ℕ) → IsDue d anchor t → after < t → next_every d anchor after ≤ t)
unfolding next_every
next_every-least d anchor after h = elim (Bool-cases (ltb after anchor)) [
  | inl e ↦ rw e (
    record { times = 0; counted = omega arith },
    ground arith,
    λ t due behind. omega (arith, due.counted),
  )
  | inr e ↦
      let le : anchor ≤ after = ground arith in
      rw e (
        record { times = (after - anchor) / d; counted = omega arith },
        omega (arith, le, (division (after - anchor) d h).1),
        λ t due behind.
            let over : after - anchor < (due.times + 1) * d = omega (arith, due.counted, le) in
            let k : ((after - anchor) / d + 1) * d ≤ (due.times + 1) * d =
              division-least (after - anchor) d due.times h over in
            omega (arith, k, due.counted),
      )
]
