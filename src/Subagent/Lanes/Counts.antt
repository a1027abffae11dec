-- ===== src/Subagent/Lanes/Counts.antt =====
-- How many callers hold the lane or wait as primary, and how a step changes the counts.
use be_code_redux.Base.{ℕ, List, [], ◌∷◌, if◌then◌else◌, total, All, ◌≡◌, refl, arith}
use be_code_redux.Subagent.Lanes.{outside, waiting, holding, released, refused, Caller, IsOutside}

abbrev pub holds : Caller → ℕ
holds c = elim c.phase [ holding ↦ 1 | outside ↦ 0 | waiting ↦ 0 | released ↦ 0 | refused ↦ 0 ]

abbrev pub waits_first : Caller → ℕ
waits_first c = elim c.phase [
  | waiting ↦ if c.primary then 1 else 0
  | holding ↦ 0
  | outside ↦ 0
  | released ↦ 0
  | refused ↦ 0
]

pub total_outside :
    (f : Caller → ℕ)
    → ((c : Caller) → IsOutside c → f c ≡ 0)
    → (cs : List Caller) → All IsOutside cs
    → total f cs ≡ 0
total_outside f z [] h = refl
total_outside f z (c ∷ cs) (hc, h) = omega (arith, z c hc, total_outside f z cs h)
