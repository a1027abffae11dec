-- ===== src/Base/Maps.antt =====
-- Go maps as association lists: a write replaces the entry in place, or adds one at the end.
use mathlib.Core.Path.{◌≡◌, refl, ◌∙◌}
use mathlib.Core.List.{List, [], ◌∷◌}
use mathlib.Core.Option.{Option, none, some}
use mathlib.Core.Bool.{false}
use native.Mathlib.Omega.{arith}
use be_code_redux.Base.Tests.{Keyed, ◌==◌, if◌then◌else◌, beq_self}

abbrev pub Assoc {ℓ κ} : Type ℓ → Type κ → Type (ℓ ⊔ κ)
Assoc K V = List (K × V)

module _ {κ ν} {K : Type κ} {V : Type ν} ⦃key : Keyed K⦄ where
  unfoldable pub lookup : K → Assoc K V → Option V
  lookup k [] = none
  lookup k ((at, v) ∷ rest) = let later = lookup k rest in if at == k then some v else later

  unfoldable pub insert : K → V → Assoc K V → Assoc K V
  insert k v [] = (k, v) ∷ []
  insert k v ((at, old) ∷ rest) =
      let later = insert k v rest in if at == k then (k, v) ∷ rest else (at, old) ∷ later

  unfoldable pub erase : K → Assoc K V → Assoc K V
  erase k [] = []
  erase k ((at, v) ∷ rest) = let later = erase k rest in if at == k then later else (at, v) ∷ later

  pub lookup-insert :
      (new k : K) (v : V) (rest : Assoc K V)
      → lookup k (insert new v rest) ≡ (if new == k then some v else lookup k rest)
  unfolding lookup insert
  lookup-insert new k v [] = refl
  lookup-insert new k v ((at, old) ∷ rest) =
      let ih = lookup-insert new k v rest in
      ground (arith, key.same_iff at new, key.same_iff at k, key.same_iff new k)

  pub lookup-erase :
      (gone k : K) (rest : Assoc K V)
      → lookup k (erase gone rest) ≡ (if gone == k then none else lookup k rest)
  unfolding lookup erase
  lookup-erase gone k [] = ground arith
  lookup-erase gone k ((at, v) ∷ rest) =
      let ih = lookup-erase gone k rest in
      ground (arith, key.same_iff at gone, key.same_iff at k, key.same_iff gone k)

  pub lookup-insert_same : (k : K) (v : V) (rest : Assoc K V) → lookup k (insert k v rest) ≡ some v
  lookup-insert_same k v rest = lookup-insert k k v rest ∙ rw (beq_self k) refl

  pub lookup-insert_apart :
      (new k : K) (v : V) (rest : Assoc K V)
      → (new == k) ≡ false
      → lookup k (insert new v rest) ≡ lookup k rest
  lookup-insert_apart new k v rest apart = lookup-insert new k v rest ∙ rw apart refl

  pub lookup-erase_same : (k : K) (rest : Assoc K V) → lookup k (erase k rest) ≡ none
  lookup-erase_same k rest = lookup-erase k k rest ∙ rw (beq_self k) refl

  pub lookup-erase_apart :
      (gone k : K) (rest : Assoc K V)
      → (gone == k) ≡ false
      → lookup k (erase gone rest) ≡ lookup k rest
  lookup-erase_apart gone k rest apart = lookup-erase gone k rest ∙ rw apart refl
