-- ===== src/Base/Keys.antt =====
-- Association lists with one entry for each key.
use mathlib.Core.Path.{◌≡◌, refl, ap, sym, ◌∙◌}
use mathlib.Core.List.{[], ◌∷◌}
use mathlib.Core.Option.{Option, none, some}
use mathlib.Core.Bool.{Bool, true, false}
use mathlib.Core.Logic.{inl, inr}
use be_code_redux.Base.Tests.{Keyed, ◌==◌, if◌then◌else◌, beq_self, eq_of_beq, Bool-cases}
use be_code_redux.Base.Lists.{All, In}
use be_code_redux.Base.Maps.{Assoc, lookup, insert, erase, lookup-insert_apart, lookup-erase}

module _ {K : Type 0} ⦃key : Keyed K⦄ where
  pub beq_false_sym : (j k : K) → (j == k) ≡ false → (k == j) ≡ false
  beq_false_sym j k e = elim (Bool-cases (k == j)) [
    | inl same ↦ cc (e, ap (λ q. q == k) (eq_of_beq {j = k} {k = j} same), beq_self k)
    | inr differs ↦ differs
  ]

module _ {K V : Type 0} ⦃key : Keyed K⦄ where
  abbrev pub IsKeyed : Assoc K V → Type 0
  IsKeyed [] = Unit
  IsKeyed ((at, v) ∷ rest) = (lookup at rest ≡ none) × IsKeyed rest

  pub insert-IsKeyed : (k : K) (v : V) (rest : Assoc K V) → IsKeyed rest → IsKeyed (insert k v rest)
  unfolding insert lookup
  insert-IsKeyed k v [] h = (refl, tt)
  insert-IsKeyed k v ((at, w) ∷ rest) (free, h) = elim (Bool-cases (at == k)) [
    | inl e ↦ rw e (ap (λ q. lookup q rest) (sym (eq_of_beq {j = at} {k = k} e)) ∙ free, h)
    | inr e ↦
        rw e
          (lookup-insert_apart k at v rest (beq_false_sym at k e) ∙ free, insert-IsKeyed k v rest h)
  ]

  pub erase-IsKeyed : (k : K) (rest : Assoc K V) → IsKeyed rest → IsKeyed (erase k rest)
  unfolding erase
  erase-IsKeyed k [] h = tt
  erase-IsKeyed k ((at, v) ∷ rest) (free, h) = elim (Bool-cases (at == k)) [
    | inl e ↦ rw e (erase-IsKeyed k rest h)
    | inr e ↦
        rw e
          (lookup-erase k at rest ∙ gone_or (k == at) (lookup at rest) free, erase-IsKeyed k rest h)
  ]
    where
      gone_or : (b : Bool) (o : Option V) → o ≡ none → (if b then none else o) ≡ none
      gone_or true o e = refl
      gone_or false o e = e

  pub All-insert :
      (P : K × V → Type 0) (k : K) (v : V) (rest : Assoc K V)
      → P (k, v)
      → All P rest
      → All P (insert k v rest)
  unfolding insert
  All-insert P k v [] p h = (p, tt)
  All-insert P k v ((at, w) ∷ rest) p (q, h) = elim (Bool-cases (at == k)) [
    | inl e ↦ rw e (p, h)
    | inr e ↦ rw e (q, All-insert P k v rest p h)
  ]

  pub lookup-In :
      (k : K) (v : V) (rest : Assoc K V) → IsKeyed rest → In (k, v) rest → lookup k rest ≡ some v
  unfolding lookup
  lookup-In k v [] h m = absurd m
  lookup-In k v ((at, w) ∷ rest) (free, h) (inl e) =
      rw (ap (λ q. q == k) (ap (λ p. p.0) e) ∙ beq_self k) (ap (λ p. some p.1) e)
  lookup-In k v ((at, w) ∷ rest) (free, h) (inr m) =
      let later = lookup-In k v rest h m in
      elim (Bool-cases (at == k)) [
        | inl e ↦ cc (sym (ap (λ q. lookup q rest) (eq_of_beq {j = at} {k = k} e)) ∙ free, later)
        | inr e ↦ rw e later
      ]

  pub In-lookup : (k : K) (v : V) (rest : Assoc K V) → lookup k rest ≡ some v → In (k, v) rest
  unfolding lookup
  In-lookup k v [] h = cc
  In-lookup k v ((at, w) ∷ rest) h = elim (Bool-cases (at == k)) [
    | inl e ↦
        inl (ap (λ q. (q, w)) (eq_of_beq {j = at} {k = k} e) ∙ ap (λ x. (k, or_else x)) (rw e at h))
    | inr e ↦ inr (In-lookup k v rest (rw e at h))
  ]
    where
      or_else : Option V → V
      or_else none = v
      or_else (some x) = x
