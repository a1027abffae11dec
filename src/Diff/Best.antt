-- ===== src/Diff/Best.antt =====
-- The length of a longest common subsequence of two lists of lines, and how it changes with them.
use be_code_redux.Base.{
  ℕ, suc, ◌+◌, ◌≤◌, List, [], ◌∷◌, ◌++◌, Text, ◌==◌, text_keyed, ◌≡◌, refl, if◌then◌else◌, leb,
  length, arith, append-nil, beq_self, append_assoc,
}

-- The length of a longest common subsequence.
unfoldable pub best : List Text → List Text → ℕ
best [] ys = 0
best (x ∷ xs) [] = 0
best (x ∷ xs) (y ∷ ys) =
    let both = best xs ys in
    let left = best xs (y ∷ ys) in
    let right = best (x ∷ xs) ys in
    if x == y then both + 1 else if leb right left then left else right

skip_left_of :
    (x : Text) (xs : List Text)
    → ((y : Text) (ys : List Text) → best xs (y ∷ ys) ≤ suc (best xs ys))
    → (ys : List Text) → best xs ys ≤ best (x ∷ xs) ys
unfolding best
skip_left_of x [] h [] = omega arith
skip_left_of x (z ∷ xs) h [] = omega arith
skip_left_of x xs h (y ∷ ys) = ground (arith, h y ys)

-- One line more on the right adds at most one.
bump_right : (xs : List Text) (y : Text) (ys : List Text) → best xs (y ∷ ys) ≤ suc (best xs ys)
unfolding best
bump_right [] y ys = omega arith
bump_right (x ∷ xs) y ys = ground (arith, bump_right xs y ys, skip_left_of x xs (bump_right xs) ys)

pub skip_left : (x : Text) (xs ys : List Text) → best xs ys ≤ best (x ∷ xs) ys
skip_left x xs ys = skip_left_of x xs (bump_right xs) ys

pub best-nil : (xs : List Text) → best xs [] ≡ 0
unfolding best
best-nil [] = refl
best-nil (x ∷ xs) = refl

skip_right_of :
    (ys : List Text) (y : Text)
    → ((x : Text) (xs : List Text) → best (x ∷ xs) ys ≤ suc (best xs ys))
    → (xs : List Text) → best xs ys ≤ best xs (y ∷ ys)
unfolding best
skip_right_of ys y h [] = omega arith
skip_right_of ys y h (x ∷ xs) = ground (arith, h x xs)

bump_left : (ys : List Text) (x : Text) (xs : List Text) → best (x ∷ xs) ys ≤ suc (best xs ys)
unfolding best
bump_left [] x xs = omega arith
bump_left (y ∷ ys) x xs = ground (arith, bump_left ys x xs, skip_right_of ys y (bump_left ys) xs)

pub skip_right : (y : Text) (xs ys : List Text) → best xs ys ≤ best xs (y ∷ ys)
skip_right y xs ys = skip_right_of ys y (bump_left ys) xs

pub best_same : (x y : Text) (xs ys : List Text) → x ≡ y → best (x ∷ xs) (y ∷ ys) ≡ suc (best xs ys)
unfolding best
best_same x y xs ys e = rw e (rw (beq_self y) (omega arith))

-- A shared line at the end counts.
best-snoc : (z : Text) (l r : List Text) → best (l ++ z ∷ []) (r ++ z ∷ []) ≡ suc (best l r)
unfolding best
best-snoc z [] [] = rw (beq_self z) refl
best-snoc z [] (y ∷ r) = ground (arith, best-snoc z [] r)
best-snoc z (x ∷ l) [] = ground (arith, best-snoc z l [], best-nil l, best-nil (l ++ z ∷ []))
best-snoc z (x ∷ l) (y ∷ r) =
    ground (arith, best-snoc z l r, best-snoc z l (y ∷ r), best-snoc z (x ∷ l) r)

pub best-append : (l r w : List Text) → best (l ++ w) (r ++ w) ≡ best l r + length w
best-append l r [] = rw (append-nil l) (rw (append-nil r) (omega arith))
best-append l r (z ∷ w) =
    let whole : best (l ++ z ∷ w) (r ++ z ∷ w) ≡ best ((l ++ z ∷ []) ++ w) ((r ++ z ∷ []) ++ w) =
      rw (append_assoc l (z ∷ []) w, append_assoc r (z ∷ []) w) refl in
    omega (arith, whole, best-append (l ++ z ∷ []) (r ++ z ∷ []) w, best-snoc z l r)

pub best-front : (u l r : List Text) → best (u ++ l) (u ++ r) ≡ length u + best l r
best-front [] l r = omega arith
best-front (x ∷ u) l r = omega (arith, best_same x x (u ++ l) (u ++ r) refl, best-front u l r)
