-- ===== src/Schedule/Cron/Rounds.antt =====
-- The loop over the values of a span: it ends within the round limit, whatever the step, and
-- without an overflow it sets the flags of the span's grid.
use be_code_redux.Base.{
  ℕ, zero, suc, ◌+◌, ◌*◌, ◌%◌, ◌^◌, ◌≤◌, ◌<◌, List, true, false, ◌||◌, text_keyed, nat_keyed, ◌==◌,
  ltb, leb, some, ◌∙◌, ap, ◌≡◌, refl, arith, ◌⊎◌, inl, inr, Bool-cases, ◌↔◌,
}
use be_code_redux.Schedule.Cron.{int_le, set_bit, has_bit, step_bits, round_limit}

-- One of the values from `v` up to `b`, `step` apart.
pub record OnGrid (v b step w : ℕ) : Type 0 where
  pub rounds : ℕ
  pub reached : w ≡ v + rounds * step
  pub within : w ≤ b

pub has_bit-set_bit :
    (v : ℕ) (bits : List ℕ) (w : ℕ)
    → v < 64
    → has_bit (set_bit v bits) w ≡ (v == w) || has_bit bits w
has_bit-set_bit v bits w h = ground arith

-- What the loop has to have done with the flags `bits`.
abbrev pub Sets : List ℕ → ℕ → ℕ → ℕ → List ℕ → Type 0
Sets bits v b step r =
    (w : ℕ) → (has_bit r w ≡ true) ↔ ((has_bit bits w ≡ true) ⊎ OnGrid v b step w)

-- The next value stays an int, so the loop goes on from it.
Sets-next :
    (bits : List ℕ) (v b step : ℕ) (r : List ℕ)
    → v < 64
    → v ≤ b
    → Sets (set_bit v bits) (v + step) b step r
    → Sets bits v b step r
Sets-next bits v b step r small le h w = (to, from)
  where
    set : has_bit (set_bit v bits) w ≡ (v == w) || has_bit bits w
    set = has_bit-set_bit v bits w small

    to : has_bit r w ≡ true → (has_bit bits w ≡ true) ⊎ OnGrid v b step w
    to m = elim ((h w).0 m) [
      | inr g ↦
          inr (record {
            rounds = suc g.rounds;
            reached = omega (arith, g.reached);
            within = g.within;
          })
      | inl k ↦ elim (Bool-cases (v == w)) [
        | inl e ↦ inr (record { rounds = 0; reached = ground arith; within = ground arith })
        | inr e ↦ inl (ground arith)
      ]
    ]

    step_on : (k : ℕ) → w ≡ v + k * step → w ≤ b → has_bit r w ≡ true
    step_on zero e le' = (h w).1 (inl (ground arith))
    step_on (suc k) e le' =
        (h w).1 (inr (record { rounds = k; reached = omega (arith, e); within = le' }))

    from : (has_bit bits w ≡ true) ⊎ OnGrid v b step w → has_bit r w ≡ true
    from (inl m) = (h w).1 (inl (ground arith))
    from (inr g) = step_on g.rounds g.reached g.within

step_bits-go :
    (fuel v b step : ℕ) (bits : List ℕ)
    → int_le v b ≡ true
    → step_bits (suc fuel) v b step bits
      ≡ step_bits fuel ((v + step) % 2 ^ 64) b step (set_bit v bits)
unfolding step_bits
step_bits-go fuel v b step bits e = rw (e, step_bits) refl

step_bits-stop :
    (fuel v b step : ℕ) (bits : List ℕ)
    → int_le v b ≡ false
    → step_bits (suc fuel) v b step bits ≡ some bits
unfolding step_bits
step_bits-stop fuel v b step bits e = rw (e, step_bits) refl

pub step_bits-Sets :
    (fuel v b step : ℕ) (bits : List ℕ)
    → b < 64
    → 0 < step
    → step + 64 ≤ 2 ^ 63
    → v < 2 ^ 63
    → 0 < fuel
    → b + 2 ≤ fuel + v
    → (r : List ℕ) × (step_bits fuel v b step bits ≡ some r) × Sets bits v b step r
step_bits-Sets zero v b step bits hb hs hl hv hf enough = absurd (omega arith)
step_bits-Sets (suc fuel) v b step bits hb hs hl hv hf enough = elim (Bool-cases (int_le v b)) [
  | inr e ↦
      let gt : b < v = ground arith in
      (
        bits,
        step_bits-stop fuel v b step bits e,
        λ w. (
          λ m. inl m,
          λ c. elim c [ inl m ↦ m | inr g ↦ absurd (omega (arith, gt, g.reached, g.within)) ],
        ),
      )
  | inl e ↦
      let le : v ≤ b = ground arith in
      let wraps : (v + step) % 2 ^ 64 ≡ v + step = omega arith in
      let (r, k, s) =
        step_bits-Sets fuel (v + step) b step (set_bit v bits) hb hs hl (omega arith) (omega arith)
          (omega arith) in
      (
        r,
        step_bits-go fuel v b step bits e
            ∙ ap (λ u. step_bits fuel u b step (set_bit v bits)) wraps
            ∙ k,
        Sets-next bits v b step r (omega arith) le s,
      )
]

-- From below 0, the next value is above the span.
negative-ends :
    (fuel v b step : ℕ) (bits : List ℕ)
    → b < 64
    → step < 2 ^ 63
    → 2 ^ 63 ≤ v
    → v < 2 ^ 64
    → 2 ^ 64 + 64 ≤ v + step
    → 2 ≤ fuel
    → (r : List ℕ) × (step_bits fuel v b step bits ≡ some r)
negative-ends zero v b step bits hb hs hn hv hu enough = absurd (omega arith)
negative-ends (suc zero) v b step bits hb hs hn hv hu enough = absurd (omega arith)
negative-ends (suc (suc fuel)) v b step bits hb hs hn hv hu enough = (
  set_bit v bits,
  step_bits-go (suc fuel) v b step bits (ground arith)
      ∙ step_bits-stop fuel ((v + step) % 2 ^ 64) b step (set_bit v bits) (ground arith),
)

-- With a step near the largest int, two rounds come back below where they started.
overflows-ends :
    (fuel v b step : ℕ) (bits : List ℕ)
    → b < 64
    → 2 ^ 63 < step + 64
    → step < 2 ^ 63
    → v < 2 ^ 63
    → v + 4 ≤ fuel
    → (r : List ℕ) × (step_bits fuel v b step bits ≡ some r)
overflows-ends zero v b step bits hb hl hs hv enough = absurd (omega arith)
overflows-ends (suc zero) v b step bits hb hl hs hv enough = absurd (omega arith)
overflows-ends (suc (suc fuel)) v b step bits hb hl hs hv enough = elim (Bool-cases (int_le v b)) [
  | inr e ↦ (bits, step_bits-stop (suc fuel) v b step bits e)
  | inl e ↦
      let le : v ≤ b = ground arith in
      let u = (v + step) % 2 ^ 64 in
      let once = step_bits-go (suc fuel) v b step bits e in
      elim (Bool-cases (int_le u b)) [
        | inr k ↦ (set_bit v bits, once ∙ step_bits-stop fuel u b step (set_bit v bits) k)
        | inl k ↦
            let u' = (u + step) % 2 ^ 64 in
            let twice = once ∙ step_bits-go fuel u b step (set_bit v bits) k in
            let sum : u ≡ v + step = omega arith in
            let big : 2 ^ 63 ≤ v + step = ground (arith, sum) in
            elim (Bool-cases (leb (2 ^ 64) (v + step + step))) [
              | inl back ↦
                  let (r, m) =
                    overflows-ends fuel u' b step (set_bit u (set_bit v bits)) hb hl hs
                      (ground (arith, sum)) (ground (arith, sum)) in
                  (r, twice ∙ m)
              | inr below ↦
                  let (r, m) =
                    negative-ends fuel u' b step (set_bit u (set_bit v bits)) hb hs
                      (ground (arith, sum)) (ground (arith, sum)) (ground (arith, sum))
                      (omega arith) in
                  (r, twice ∙ m)
            ]
      ]
]

-- No step keeps the loop going.
pub step_bits-ends :
    (v b step : ℕ) (bits : List ℕ)
    → b < 64
    → 0 < step
    → step < 2 ^ 63
    → v < 2 ^ 63
    → (r : List ℕ) × (step_bits round_limit v b step bits ≡ some r)
step_bits-ends v b step bits hb hp hs hv = elim (Bool-cases (leb (step + 64) (2 ^ 63))) [
  | inl e ↦
      let (r, k, s) =
        step_bits-Sets round_limit v b step bits hb hp (ground arith) hv (omega arith)
          (omega arith) in
      (r, k)
  | inr e ↦ elim (Bool-cases (ltb b v)) [
    | inl above ↦ (bits, step_bits-stop 127 v b step bits (ground arith))
    | inr low ↦ overflows-ends round_limit v b step bits hb (ground arith) hs hv (ground arith)
  ]
]
