-- ===== src/Base/Sums.antt =====
-- Sums of a weight over a list, and how a write changes them.
use Prim.Native.Nat.{ℕ, zero, suc, ◌+◌, ◌≤◌}
use mathlib.Core.Path.{◌≡◌, refl, ap}
use mathlib.Core.List.{List, [], ◌∷◌}
use mathlib.Core.Option.{Option, some}
use native.Mathlib.Omega.{arith}
use be_code_redux.Base.Lists.{get_elem?, set}

module _ {A : Type 0} where
  pub some-injective : {a b : A} → ◌≡◌ {A = Option A} (some a) (some b) → a ≡ b
  some-injective e = cc

  abbrev pub total : (A → ℕ) → List A → ℕ
  total f [] = 0
  total f (c ∷ cs) = f c + total f cs

  pub total-set :
      (f : A → ℕ) (cs : List A) (i : ℕ) (c d : A)
      → get_elem? cs i ≡ some c
      → total f (set cs i d) + f c ≡ total f cs + f d
  total-set f [] i c d h = cc
  total-set f (x ∷ cs) zero c d h = omega (arith, ap f (some-injective h))
  total-set f (x ∷ cs) (suc i) c d h = omega (arith, total-set f cs i c d h)

  -- The element at a place is one of those that the sum counts.
  pub at-total :
      (f : A → ℕ) (cs : List A) (i : ℕ) (c : A) → get_elem? cs i ≡ some c → f c ≤ total f cs
  at-total f [] i c g = cc
  at-total f (x ∷ cs) zero c g = omega (arith, ap f (some-injective g))
  at-total f (x ∷ cs) (suc i) c g = omega (arith, at-total f cs i c g)

  pub get_elem?-set_self :
      (cs : List A) (i : ℕ) (c d : A) → get_elem? cs i ≡ some c → get_elem? (set cs i d) i ≡ some d
  get_elem?-set_self [] i c d h = cc
  get_elem?-set_self (x ∷ cs) zero c d h = refl
  get_elem?-set_self (x ∷ cs) (suc i) c d h = get_elem?-set_self cs i c d h
