-- ===== src/Diff/Longest.antt =====
-- The table and the script of lcsOps (internal/diff/diff.go) against the lengths of longest common
-- subsequences.
use be_code_redux.Base.{
  ℕ, zero, suc, ◌+◌, ◌*◌, ◌≤◌, List, [], ◌∷◌, ◌++◌, Text, text_keyed, ◌≡◌, refl, ap, ◌∙◌, length,
  drop, arith, length-append,
}
use be_code_redux.Diff.{
  Kind, kept, gone, added, Op, keep_ops, middle_ops, diff_ops, zeros, first, max_lcs_cells,
  fill_row, fill_table, first_row, cell, read_ops, lcs_ops, gone_ops, added_ops,
}
use be_code_redux.Diff.Best.{best, skip_left, skip_right, best_same, best-append, best-front}
use native.Mathlib.Nat.{le_trans, mul-le-mul_right, mul-le-mul_left}
use be_code_redux.Diff.Script.{Walk, stop, keep, drop_line, add_line}
use be_code_redux.Diff.Patch.{drop-get_elem?}
use be_code_redux.Diff.Ends.{Parts, parts}

-- One row of the table: `best` against each of the ends of `ys`.
best_row : List Text → List Text → List ℕ
best_row xs [] = best xs [] ∷ []
best_row xs (y ∷ ys) = best xs (y ∷ ys) ∷ best_row xs ys

first-best_row : (xs ys : List Text) → first (best_row xs ys) ≡ best xs ys
unfolding best_row
first-best_row xs [] = refl
first-best_row xs (y ∷ ys) = refl

fill_row-best :
    (x : Text) (xs ys : List Text) → fill_row x ys (best_row xs ys) ≡ best_row (x ∷ xs) ys
unfolding fill_row best_row
fill_row-best x xs [] = unfold best in refl
fill_row-best x xs (y ∷ ys) =
    rw (fill_row-best x xs ys)
      (rw (first-best_row (x ∷ xs) ys) (rw (first-best_row xs ys) (unfold best in refl)))

best_table : List Text → List Text → List (List ℕ)
best_table [] ys = best_row [] ys ∷ []
best_table (x ∷ xs) ys = best_row (x ∷ xs) ys ∷ best_table xs ys

zeros-best : (ys : List Text) → zeros (length ys) ≡ best_row [] ys
unfolding zeros best_row best
zeros-best [] = refl
zeros-best (y ∷ ys) = ap (λ l. 0 ∷ l) (zeros-best ys)

first_row-best_table : (xs ys : List Text) → first_row (best_table xs ys) ≡ best_row xs ys
unfolding best_table
first_row-best_table [] ys = refl
first_row-best_table (x ∷ xs) ys = refl

fill_table-best : (xs ys : List Text) → fill_table xs ys ≡ best_table xs ys
unfolding fill_table best_table
fill_table-best [] ys = ap (λ l. l ∷ []) (zeros-best ys)
fill_table-best (x ∷ xs) ys =
    rw (fill_table-best xs ys)
      (rw (first_row-best_table xs ys) (ap (λ r. r ∷ best_table xs ys) (fill_row-best x xs ys)))

drop-best_table :
    (a ys : List Text) (i : ℕ) → i ≤ length a → drop i (best_table a ys) ≡ best_table (drop i a) ys
unfolding best_table
drop-best_table a ys zero h = refl
drop-best_table [] ys (suc i) h = absurd (omega arith)
drop-best_table (x ∷ a) ys (suc i) h = drop-best_table a ys i (omega arith)

drop-best_row :
    (xs b : List Text) (j : ℕ) → j ≤ length b → drop j (best_row xs b) ≡ best_row xs (drop j b)
unfolding best_row
drop-best_row xs b zero h = refl
drop-best_row xs [] (suc j) h = absurd (omega arith)
drop-best_row xs (y ∷ b) (suc j) h = drop-best_row xs b j (omega arith)

drop-cons :
    (l : List Text) (i : ℕ) (x : Text) (xs : List Text) → drop i l ≡ x ∷ xs → drop (suc i) l ≡ xs
drop-cons [] zero x xs h = cc
drop-cons [] (suc i) x xs h = cc
drop-cons (y ∷ l) zero x xs h = cc
drop-cons (y ∷ l) (suc i) x xs h = drop-cons l i x xs h

-- dp[i][j] is the answer for the lines from `i` and from `j` on.
cell-best :
    (a b : List Text) (i j : ℕ)
    → i ≤ length a
    → j ≤ length b
    → cell (fill_table a b) i j ≡ best (drop i a) (drop j b)
unfolding cell
cell-best a b i j h k = rw (fill_table-best a b) (
    rw (drop-best_table a b i h) (
      rw (first_row-best_table (drop i a) b)
        (rw (drop-best_row (drop i a) b j k) (first-best_row (drop i a) (drop j b)))))

abbrev count_one : Kind → ℕ
count_one kept = 1
count_one gone = 0
count_one added = 0

-- How many lines an edit script keeps.
abbrev pub count_kept : List Op → ℕ
count_kept [] = 0
count_kept (o ∷ os) = count_one o.kind + count_kept os

-- No walk keeps more lines than `best`.
pub Walk-best :
    (a b : List Text) {os : List Op} {i j n m : ℕ}
    → Walk a b os i j n m
    → count_kept os ≤ best (drop i a) (drop j b)
Walk-best a b stop = omega arith
Walk-best a b {i = i} {j = j} (keep x p q w) = rw (drop-get_elem? a i x p) (
    rw (drop-get_elem? b j x q)
      (omega (arith, Walk-best a b w, best_same x x (drop (suc i) a) (drop (suc j) b) refl)))
Walk-best a b {i = i} {j = j} (drop_line x p w) =
    rw (drop-get_elem? a i x p)
      (omega (arith, Walk-best a b w, skip_left x (drop (suc i) a) (drop j b)))
Walk-best a b {i = i} {j = j} (add_line y q w) =
    rw (drop-get_elem? b j y q)
      (omega (arith, Walk-best a b w, skip_right y (drop i a) (drop (suc j) b)))

count_kept-append : (os ps : List Op) → count_kept (os ++ ps) ≡ count_kept os + count_kept ps
count_kept-append [] ps = omega arith
count_kept-append (o ∷ os) ps = omega (arith, count_kept-append os ps)

count_kept-gone_ops : (i n : ℕ) → count_kept (gone_ops i n) ≡ 0
unfolding gone_ops
count_kept-gone_ops i zero = refl
count_kept-gone_ops i (suc n) = omega (arith, count_kept-gone_ops (suc i) n)

count_kept-added_ops : (j n : ℕ) → count_kept (added_ops j n) ≡ 0
unfolding added_ops
count_kept-added_ops j zero = refl
count_kept-added_ops j (suc n) = omega (arith, count_kept-added_ops (suc j) n)

count_kept-keep_ops : (i j n : ℕ) → count_kept (keep_ops i j n) ≡ n
unfolding keep_ops
count_kept-keep_ops i j zero = refl
count_kept-keep_ops i j (suc n) = omega (arith, count_kept-keep_ops (suc i) (suc j) n)

-- Reading the table from any pair of positions keeps the lines it promises.
count_kept-read_ops :
    (a b : List Text) (offset i j : ℕ) (xs ys : List Text)
    → i + length xs ≡ length a
    → j + length ys ≡ length b
    → drop i a ≡ xs
    → drop j b ≡ ys
    → count_kept (read_ops (fill_table a b) offset i j xs ys) ≡ best xs ys
unfolding read_ops best
count_kept-read_ops a b offset i j [] ys hi hj di dj = count_kept-added_ops (offset + j) (length ys)
count_kept-read_ops a b offset i j (x ∷ xs) [] hi hj di dj =
    count_kept-gone_ops (offset + i) (suc (length xs))
count_kept-read_ops a b offset i j (x ∷ xs) (y ∷ ys) hi hj di dj =
    let di' : drop (suc i) a ≡ xs = drop-cons a i x xs di in
    let dj' : drop (suc j) b ≡ ys = drop-cons b j y ys dj in
    let hi' : suc i + length xs ≡ length a = omega arith in
    let hj' : suc j + length ys ≡ length b = omega arith in
    let cl : cell (fill_table a b) (suc i) j ≡ best xs (y ∷ ys) =
      cell-best a b (suc i) j (omega arith) (omega arith) ∙ cc (di', dj) in
    let cr : cell (fill_table a b) i (suc j) ≡ best (x ∷ xs) ys =
      cell-best a b i (suc j) (omega arith) (omega arith) ∙ cc (di, dj') in
    rw cl (
      rw cr (
        ground (
          arith,
          count_kept-read_ops a b offset (suc i) (suc j) xs ys hi' hj' di' dj',
          count_kept-read_ops a b offset (suc i) j xs (y ∷ ys) hi' hj di' dj,
          count_kept-read_ops a b offset i (suc j) (x ∷ xs) ys hi hj' di dj',
        )))

mul_le : (m n u v : ℕ) → m ≤ u → n ≤ v → m * n ≤ u * v
mul_le m n u v h k = le_trans (mul-le-mul_right n h) (mul-le-mul_left u k)

count_kept-middle_ops :
    (l r : List Text) (p : ℕ)
    → length l * length r ≤ max_lcs_cells
    → count_kept (middle_ops l r p) ≡ best l r
unfolding middle_ops lcs_ops
count_kept-middle_ops l r p h =
    ground (arith, count_kept-read_ops l r p 0 0 l r (omega arith) (omega arith) refl refl)

diff_ops-best :
    (a b : List Text)
    → Parts a b
    → length a * length b ≤ max_lcs_cells
    → count_kept (diff_ops a b) ≡ best a b
diff_ops-best a b p h =
    let u = p.front in
    let l = p.left in
    let r = p.right in
    let w = p.back in
    let la : length l ≤ length a =
      omega (arith, ap length p.of_a, length-append u (l ++ w), length-append l w) in
    let lb : length r ≤ length b =
      omega (arith, ap length p.of_b, length-append u (r ++ w), length-append r w) in
    let small : length l * length r ≤ max_lcs_cells =
      le_trans (mul_le (length l) (length r) (length a) (length b) la lb) h in
    let kept_all : count_kept (diff_ops a b) ≡ length u + (best l r + length w) = rw p.script (
      omega (
        arith,
        count_kept-append (keep_ops 0 0 (length u)) (
            middle_ops l r (length u)
            ++ keep_ops (length u + length l) (length u + length r) (length w)),
        count_kept-append (middle_ops l r (length u))
            (keep_ops (length u + length l) (length u + length r) (length w)),
        count_kept-keep_ops 0 0 (length u),
        count_kept-middle_ops l r (length u) small,
        count_kept-keep_ops (length u + length l) (length u + length r) (length w),
      )) in
    let whole : best a b ≡ length u + (best l r + length w) =
      cc (p.of_a, p.of_b, best-front u (l ++ w) (r ++ w), best-append l r w) in
    cc (kept_all, whole)

-- Where the two texts have at most 4,000,000 pairs of lines, diffOps keeps at least as many lines
-- as any edit script between them.
pub diff_ops-longest :
    (a b : List Text) (os : List Op)
    → length a * length b ≤ max_lcs_cells
    → Walk a b os 0 0 (length a) (length b)
    → count_kept os ≤ count_kept (diff_ops a b)
diff_ops-longest a b os h w = omega (arith, diff_ops-best a b (parts a b) h, Walk-best a b w)
