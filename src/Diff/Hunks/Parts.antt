-- ===== src/Diff/Hunks/Parts.antt =====
-- Parts of a list: what is taken, dropped and found at a place.
use be_code_redux.Base.{
  ℕ, zero, suc, ◌+◌, ◌≤◌, ◌<◌, List, [], ◌∷◌, length, take, drop, none, some, get_elem?, All, ◌≡◌,
  refl, sym, ap, ◌∙◌, subst, arith,
}

module _ {A : Type 0} where
  pub drop_nil : (n : ℕ) → drop {A = A} n [] ≡ []
  drop_nil zero = refl
  drop_nil (suc n) = refl

  pub drop-drop : (m n : ℕ) (xs : List A) → drop n (drop m xs) ≡ drop (m + n) xs
  drop-drop zero n xs = ap (λ k. drop k xs) (omega arith)
  drop-drop (suc m) n [] = drop_nil n ∙ sym (drop_nil (suc m + n))
  drop-drop (suc m) n (x ∷ xs) =
      let next : suc (m + n) ≡ suc m + n = omega arith in
      drop-drop m n xs ∙ ap (λ k. drop k (x ∷ xs)) next

  pub drop-get_elem? :
      (xs : List A) (i : ℕ) (x : A) → get_elem? xs i ≡ some x → drop i xs ≡ x ∷ drop (i + 1) xs
  drop-get_elem? [] i x h = cc
  drop-get_elem? (y ∷ xs) zero x h = cc (h)
  drop-get_elem? (y ∷ xs) (suc i) x h =
      let next : suc (i + 1) ≡ suc i + 1 = omega arith in
      drop-get_elem? xs i x h ∙ ap (λ k. x ∷ drop k (y ∷ xs)) next

  pub drop-past : (xs : List A) (i : ℕ) → get_elem? xs i ≡ none → drop i xs ≡ []
  drop-past [] zero h = refl
  drop-past [] (suc i) h = refl
  drop-past (y ∷ xs) zero h = cc
  drop-past (y ∷ xs) (suc i) h = drop-past xs i h

  -- Of a stretch of members that a predicate holds of, a part that lies inside.
  pub All-stretch :
      (P : A → Type 0) (m n k : ℕ) (xs : List A)
      → m + k ≤ n
      → All P (take n xs)
      → All P (take k (drop m xs))
  All-stretch P zero n zero xs h a = tt
  All-stretch P zero zero (suc k) xs h a = absurd (omega (arith, h))
  All-stretch P zero (suc n) (suc k) [] h a = tt
  All-stretch P zero (suc n) (suc k) (x ∷ xs) h (p, a) =
      (p, All-stretch P zero n k xs (omega (arith, h)) a)
  All-stretch P (suc m) n zero [] h a = tt
  All-stretch P (suc m) n (suc k) [] h a = tt
  All-stretch P (suc m) zero k (x ∷ xs) h a = absurd (omega (arith, h))
  All-stretch P (suc m) (suc n) k (x ∷ xs) h (p, a) = All-stretch P m n k xs (omega (arith, h)) a

  pub All-take : (P : A → Type 0) (n : ℕ) (xs : List A) → All P xs → All P (take n xs)
  All-take P zero xs h = tt
  All-take P (suc n) [] h = tt
  All-take P (suc n) (x ∷ xs) (p, h) = (p, All-take P n xs h)

  pub All-take_all :
      (P : A → Type 0) (n : ℕ) (xs : List A) → drop n xs ≡ [] → All P (take n xs) → All P xs
  All-take_all P n [] e h = tt
  All-take_all P zero (x ∷ xs) e h = cc
  All-take_all P (suc n) (x ∷ xs) e (p, h) = (p, All-take_all P n xs e h)

  pub All-take_suc :
      (P : A → Type 0) (n : ℕ) (xs rest : List A) (x : A)
      → drop n xs ≡ x ∷ rest
      → P x
      → All P (take n xs)
      → All P (take (suc n) xs)
  All-take_suc P zero [] rest x e p h = cc
  All-take_suc P zero (y ∷ xs) rest x e p h = (subst P (sym (cc (e))) p, tt)
  All-take_suc P (suc n) [] rest x e p h = cc
  All-take_suc P (suc n) (y ∷ xs) rest x e p (q, h) = (q, All-take_suc P n xs rest x e p h)

  pub drop-length : (xs : List A) → drop (length xs) xs ≡ []
  drop-length [] = refl
  drop-length (x ∷ xs) = drop-length xs

  pub get_elem?-small : (xs : List A) (i : ℕ) (x : A) → get_elem? xs i ≡ some x → i < length xs
  get_elem?-small [] i x h = cc
  get_elem?-small (y ∷ xs) zero x h = omega arith
  get_elem?-small (y ∷ xs) (suc i) x h = omega (arith, get_elem?-small xs i x h)

  pub get_elem?-past : (xs : List A) (i : ℕ) → length xs ≤ i → get_elem? xs i ≡ none
  get_elem?-past [] i h = refl
  get_elem?-past (x ∷ xs) zero h = absurd (omega (arith, h))
  get_elem?-past (x ∷ xs) (suc i) h = get_elem?-past xs i (omega (arith, h))

  pub All-get_elem? :
      (P : A → Type 0) (n : ℕ) (xs : List A) (i : ℕ) (x : A)
      → i < n
      → get_elem? xs i ≡ some x
      → All P (take n xs)
      → P x
  All-get_elem? P n [] i x h e a = cc
  All-get_elem? P zero (y ∷ xs) i x h e a = absurd (omega (arith, h))
  All-get_elem? P (suc n) (y ∷ xs) zero x h e (p, a) = subst P (cc (e)) p
  All-get_elem? P (suc n) (y ∷ xs) (suc i) x h e (p, a) =
      All-get_elem? P n xs i x (omega (arith, h)) e a

  pub get_elem?-drop : (m i : ℕ) (xs : List A) → get_elem? (drop m xs) i ≡ get_elem? xs (m + i)
  get_elem?-drop zero i xs = ap (get_elem? xs) (omega arith)
  get_elem?-drop (suc m) i [] = refl
  get_elem?-drop (suc m) i (x ∷ xs) =
      let next : suc (m + i) ≡ suc m + i = omega arith in
      get_elem?-drop m i xs ∙ ap (get_elem? (x ∷ xs)) next
