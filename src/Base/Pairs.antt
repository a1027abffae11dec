-- ===== src/Base/Pairs.antt =====
-- Relations between each member of a list and the later ones, and lists with members left out.
use mathlib.Core.Path.{refl, sym, subst, ◌∙◌}
use mathlib.Core.List.{List, [], ◌∷◌, ◌++◌, Sublistᴰ}
use be_code_redux.Base.Lists.{All, All-append}

module _ {ℓ κ} {A : Type ℓ} (R : A → A → Type κ) where
  abbrev pub Pairwise : List A → Type κ
  Pairwise [] = Unit
  Pairwise (x ∷ xs) = All (R x) xs × Pairwise xs

  pub Pairwise-snoc :
      (xs : List A) (y : A) → Pairwise xs → All (λ x. R x y) xs → Pairwise (xs ++ y ∷ [])
  Pairwise-snoc [] y p h = (tt, tt)
  Pairwise-snoc (x ∷ xs) y (px, p) (r, h) =
      (All-append (R x) xs (y ∷ []) px (r, tt), Pairwise-snoc xs y p h)

  pub Pairwise-append :
      (xs ys : List A)
      → Pairwise xs
      → Pairwise ys
      → All (λ x. All (R x) ys) xs
      → Pairwise (xs ++ ys)
  Pairwise-append [] ys p q c = q
  Pairwise-append (x ∷ xs) ys (px, p) q (cx, c) =
      (All-append (R x) xs ys px cx, Pairwise-append xs ys p q c)

module _ {A : Type 0} where
  pub Sublistᴰ-self : (xs : List A) → Sublistᴰ xs xs
  Sublistᴰ-self [] = Sublistᴰ.slnil
  Sublistᴰ-self (x ∷ xs) = Sublistᴰ.cons-cons refl (Sublistᴰ-self xs)

  pub Sublistᴰ-append :
      {xs xs' ys ys' : List A}
      → Sublistᴰ xs xs'
      → Sublistᴰ ys ys'
      → Sublistᴰ (xs ++ ys) (xs' ++ ys')
  Sublistᴰ-append Sublistᴰ.slnil q = q
  Sublistᴰ-append (Sublistᴰ.cons p) q = Sublistᴰ.cons (Sublistᴰ-append p q)
  Sublistᴰ-append (Sublistᴰ.cons-cons e p) q = Sublistᴰ.cons-cons e (Sublistᴰ-append p q)

  pub Sublistᴰ-nil : (ys : List A) → Sublistᴰ [] ys
  Sublistᴰ-nil [] = Sublistᴰ.slnil
  Sublistᴰ-nil (y ∷ ys) = Sublistᴰ.cons (Sublistᴰ-nil ys)

  All-Sublistᴰ : (P : A → Type 0) {xs ys : List A} → Sublistᴰ xs ys → All P ys → All P xs
  All-Sublistᴰ P Sublistᴰ.slnil h = tt
  All-Sublistᴰ P (Sublistᴰ.cons p) (_, h) = All-Sublistᴰ P p h
  All-Sublistᴰ P (Sublistᴰ.cons-cons e p) (py, h) = (subst P (sym e) py, All-Sublistᴰ P p h)

  pub Pairwise-Sublistᴰ :
      (R : A → A → Type 0) {xs ys : List A} → Sublistᴰ xs ys → Pairwise R ys → Pairwise R xs
  Pairwise-Sublistᴰ R Sublistᴰ.slnil h = tt
  Pairwise-Sublistᴰ R (Sublistᴰ.cons p) (_, h) = Pairwise-Sublistᴰ R p h
  Pairwise-Sublistᴰ R (Sublistᴰ.cons-cons {l₁ = l} e p) (py, h) =
      (subst (λ z. All (R z) l) (sym e) (All-Sublistᴰ (R _) p py), Pairwise-Sublistᴰ R p h)

  pub Sublistᴰ-trans : {ys zs xs : List A} → Sublistᴰ xs ys → Sublistᴰ ys zs → Sublistᴰ xs zs
  Sublistᴰ-trans p Sublistᴰ.slnil = p
  Sublistᴰ-trans p (Sublistᴰ.cons q) = Sublistᴰ.cons (Sublistᴰ-trans p q)
  Sublistᴰ-trans (Sublistᴰ.cons p) (Sublistᴰ.cons-cons e q) = Sublistᴰ.cons (Sublistᴰ-trans p q)
  Sublistᴰ-trans (Sublistᴰ.cons-cons d p) (Sublistᴰ.cons-cons e q) =
      Sublistᴰ.cons-cons (d ∙ e) (Sublistᴰ-trans p q)
