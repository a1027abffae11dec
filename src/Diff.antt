-- ===== src/Diff.antt =====
-- internal/diff/diff.go: the edit script between two lists of lines. A line is a text; Go's line
-- kinds '=', '-' and '+' are constructors.
pub mod Script
pub mod Ends
pub mod Patch
pub mod Best
pub mod Longest
pub mod Hunks
mod Tests
use mathlib.Core.List.{reverse}
use be_code_redux.Base.{
  ℕ, zero, suc, ◌+◌, ◌-◌, ◌*◌, List, [], ◌∷◌, ◌++◌, Bool, true, false, Text, ◌==◌, text_keyed,
  if◌then◌else◌, ltb, leb, length, take, drop,
}

pub data Kind : Type 0 where
  kept gone added : Kind

pub record Op : Type 0 where
  pub kind : Kind
  pub ai : ℕ
  pub bi : ℕ

abbrev pub keep_op : ℕ → ℕ → Op
keep_op i j = record { kind = kept; ai = i; bi = j }

abbrev pub gone_op : ℕ → Op
gone_op i = record { kind = gone; ai = i; bi = 0 }

abbrev pub added_op : ℕ → Op
added_op j = record { kind = added; ai = 0; bi = j }

abbrev pub max_lcs_cells : ℕ
max_lcs_cells = 4_000_000

-- The loop that counts equal lines at the front.
unfoldable pub common : List Text → List Text → ℕ
common [] ys = 0
common (x ∷ xs) [] = 0
common (x ∷ xs) (y ∷ ys) = let more = common xs ys in if x == y then suc more else 0

-- `n` operations on consecutive lines.
unfoldable pub gone_ops : ℕ → ℕ → List Op
gone_ops i zero = []
gone_ops i (suc n) = gone_op i ∷ gone_ops (suc i) n

unfoldable pub added_ops : ℕ → ℕ → List Op
added_ops j zero = []
added_ops j (suc n) = added_op j ∷ added_ops (suc j) n

unfoldable pub keep_ops : ℕ → ℕ → ℕ → List Op
keep_ops i j zero = []
keep_ops i j (suc n) = keep_op i j ∷ keep_ops (suc i) (suc j) n

-- The table `dp`, a list of rows. Its cells start at 0, so a cell that no loop fills is 0.
unfoldable pub zeros : ℕ → List ℕ
zeros zero = 0 ∷ []
zeros (suc m) = 0 ∷ zeros m

abbrev pub first : List ℕ → ℕ
first [] = 0
first (d ∷ ds) = d

abbrev pub rest_of : List ℕ → List ℕ
rest_of [] = []
rest_of (d ∷ ds) = ds

-- One row of the table, from its right end to the left; `below` is the row under it.
unfoldable pub fill_row : Text → List Text → List ℕ → List ℕ
fill_row x [] below = 0 ∷ []
fill_row x (y ∷ ys) below =
    let right = fill_row x ys (rest_of below) in
    let cell =
      if x == y
      then first (rest_of below) + 1
      else if leb (first right) (first below)
      then first below
      else first right in
    cell ∷ right

abbrev pub first_row : List (List ℕ) → List ℕ
first_row [] = []
first_row (r ∷ rs) = r

unfoldable pub fill_table : List Text → List Text → List (List ℕ)
unfolding fill_row zeros
fill_table [] b = zeros (length b) ∷ []
fill_table (x ∷ xs) b = let below = fill_table xs b in fill_row x b (first_row below) ∷ below

-- dp[i][j], 0 outside the table
unfoldable pub cell : List (List ℕ) → ℕ → ℕ → ℕ
cell dp i j = first (drop j (first_row (drop i dp)))

-- The loops that read the table; `i` and `j` are the lines read of both sides.
unfoldable pub read_ops : List (List ℕ) → ℕ → ℕ → ℕ → List Text → List Text → List Op
unfolding cell gone_ops added_ops
read_ops dp offset i j [] ys = added_ops (offset + j) (length ys)
read_ops dp offset i j (x ∷ xs) [] = gone_ops (offset + i) (suc (length xs))
read_ops dp offset i j (x ∷ xs) (y ∷ ys) =
    let both = keep_op (offset + i) (offset + j) ∷ read_ops dp offset (suc i) (suc j) xs ys in
    let left = gone_op (offset + i) ∷ read_ops dp offset (suc i) j xs (y ∷ ys) in
    let right = added_op (offset + j) ∷ read_ops dp offset i (suc j) (x ∷ xs) ys in
    if x == y then both else if leb (cell dp i (suc j)) (cell dp (suc i) j) then left else right

-- lcsOps
unfoldable pub lcs_ops : List Text → List Text → ℕ → List Op
unfolding read_ops fill_table
lcs_ops a b offset = read_ops (fill_table a b) offset 0 0 a b

-- The operations for the lines between the common ends.
unfoldable pub middle_ops : List Text → List Text → ℕ → List Op
unfolding lcs_ops
middle_ops am bm pre =
    if ltb max_lcs_cells (length am * length bm)
    then gone_ops pre (length am) ++ added_ops pre (length bm)
    else lcs_ops am bm pre

-- diffOps
unfoldable pub diff_ops : List Text → List Text → List Op
unfolding common middle_ops keep_ops
diff_ops a b =
    let pre = common a b in
    let suf = common (reverse (drop pre a)) (reverse (drop pre b)) in
    let am = take (length a - suf - pre) (drop pre a) in
    let bm = take (length b - suf - pre) (drop pre b) in
    keep_ops 0 0 pre ++ (middle_ops am bm pre ++ keep_ops (length a - suf) (length b - suf) suf)
