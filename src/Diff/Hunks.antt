-- ===== src/Diff/Hunks.antt =====
-- splitLines, buildHunks and Stats of internal/diff/diff.go. Go's index panics are `none` as a
-- line's text; the loop over the operations has one round for each of them at most.
mod Parts
pub mod Stretches
mod Reach
pub mod Shown
pub mod Counted
mod Tests
use mathlib.Core.List.{reverse}
use be_code_redux.Base.{
  ℕ, zero, suc, ◌+◌, ◌-◌, ◌*◌, List, [], ◌∷◌, ◌++◌, Bool, true, false, Text, codes, ◌==◌, nat_keyed,
  text_keyed, if◌then◌else◌, ltb, leb, length, take, drop, Option, none, some, get_elem?,
}
use be_code_redux.Paths.{split}
use be_code_redux.Diff.{Kind, kept, gone, added, Op, diff_ops}

-- Line
pub record Line : Type 0 where
  pub kind : Kind
  pub text : Option Text

pub record Hunk : Type 0 where
  pub a_start : ℕ
  pub a_lines : ℕ
  pub b_start : ℕ
  pub b_lines : ℕ
  pub lines : List Line

abbrev newline : ℕ
newline = 10

-- strings.TrimSuffix s "\n", with the text reversed
abbrev trim_last : Text → Text
trim_last [] = []
trim_last (c ∷ s) = if c == newline then reverse s else reverse (c ∷ s)

abbrev pub cut_lines : Text → List Text
cut_lines [] = []
cut_lines (c ∷ s) = split newline (trim_last (reverse (c ∷ s)))

-- splitLines
unfoldable pub split_lines : Text → List Text
unfolding split
split_lines s = cut_lines s

-- The walk forward from a change: the last change that at most `2 * context` kept lines part from
-- the one before it; `k` is the place of the first operation, `eq` counts the kept ones so far.
unfoldable pub last_change : ℕ → List Op → ℕ → ℕ → ℕ → ℕ
last_change context [] k eq end = end
last_change context (o ∷ ops) k eq end =
    let further = last_change context ops (k + 1) (eq + 1) end in
    let changed = last_change context ops (k + 1) 0 k in
    elim o.kind [
      | kept ↦ if ltb (2 * context) (eq + 1) then end else further
      | gone ↦ changed
      | added ↦ changed
    ]

-- bStartFor and aStartFor, over the operations before, the nearest first; the code's -1 + 1 is 0.
unfoldable pub b_start_for : List Op → ℕ
b_start_for [] = 0
b_start_for (o ∷ before) =
    let farther = b_start_for before in
    elim o.kind [ kept ↦ o.bi + 1 | gone ↦ farther | added ↦ o.bi + 1 ]

unfoldable pub a_start_for : List Op → ℕ
a_start_for [] = 0
a_start_for (o ∷ before) =
    let farther = a_start_for before in
    elim o.kind [ kept ↦ o.ai + 1 | gone ↦ o.ai + 1 | added ↦ farther ]

module _ (a b : List Text) where
  abbrev pub line_at : Kind → Op → Line
  line_at kept o = record { kind = kept; text = get_elem? a o.ai }
  line_at gone o = record { kind = gone; text = get_elem? a o.ai }
  line_at added o = record { kind = added; text = get_elem? b o.bi }

  unfoldable pub line_of : Op → Line
  line_of o = line_at o.kind o

  unfoldable pub lines_of : List Op → List Line
  unfolding line_of
  lines_of [] = []
  lines_of (o ∷ ops) = line_of o ∷ lines_of ops

  -- How many lines of the old and of the new text the operations are about.
  unfoldable pub old_count : List Op → ℕ
  old_count [] = 0
  old_count (o ∷ ops) =
      let n = old_count ops in elim o.kind [ kept ↦ suc n | gone ↦ suc n | added ↦ n ]

  unfoldable pub new_count : List Op → ℕ
  new_count [] = 0
  new_count (o ∷ ops) =
      let n = new_count ops in elim o.kind [ kept ↦ suc n | gone ↦ n | added ↦ suc n ]

  -- Where a hunk starts: its first operation says, and those before it.
  abbrev pub starts : List Op → List Op → ℕ × ℕ
  starts before [] = (0, 0)
  starts before (o ∷ ops) = elim o.kind [
    | kept ↦ (o.ai + 1, o.bi + 1)
    | gone ↦ (o.ai + 1, b_start_for before + 1)
    | added ↦ (a_start_for before + 1, o.bi + 1)
  ]

  -- The hunk of the operations from `start` up to `stop`.
  unfoldable pub hunk_of : List Op → ℕ → ℕ → Hunk
  unfolding lines_of old_count new_count a_start_for b_start_for
  hunk_of ops start stop =
      let inside = take (stop - start) (drop start ops) in
      let (a_first, b_first) = starts (reverse (take start ops)) inside in
      record {
        a_start = a_first;
        a_lines = old_count inside;
        b_start = b_first;
        b_lines = new_count inside;
        lines = lines_of inside;
      }

  abbrev pub min_of : ℕ → ℕ → ℕ
  min_of m n = if ltb n m then n else m

  -- Where the hunk of a change at `i` ends.
  unfoldable pub stop_for : List Op → ℕ → ℕ → ℕ
  unfolding last_change
  stop_for ops context i =
      min_of (last_change context (drop i ops) i 0 i + context + 1) (length ops)

  -- One round at the operation at `i`; `next` is the rest of the loop from a place on.
  abbrev pub at_kind : List Op → ℕ → ℕ → (ℕ → List Hunk) → Kind → List Hunk
  at_kind ops context i next kept = next (i + 1)
  at_kind ops context i next gone =
      hunk_of ops (i - context) (stop_for ops context i) ∷ next (stop_for ops context i)
  at_kind ops context i next added =
      hunk_of ops (i - context) (stop_for ops context i) ∷ next (stop_for ops context i)

  abbrev pub at_op : List Op → ℕ → ℕ → (ℕ → List Hunk) → Option Op → List Hunk
  at_op ops context i next none = []
  at_op ops context i next (some o) = at_kind ops context i next o.kind

  -- buildHunks' loop from the operation at `i` on
  unfoldable pub hunks_from : List Op → ℕ → ℕ → ℕ → List Hunk
  unfolding hunk_of stop_for
  hunks_from ops context zero i = []
  hunks_from ops context (suc fuel) i =
      at_op ops context i (hunks_from ops context fuel) (get_elem? ops i)

  -- buildHunks
  unfoldable pub build_hunks : List Op → ℕ → List Hunk
  unfolding hunks_from
  build_hunks ops context = hunks_from ops context (length ops) 0

-- Unified
unfoldable pub unified : Text → Text → ℕ → List Hunk
unfolding build_hunks split_lines diff_ops
unified old_text new_text context =
    let a = split_lines old_text in
    let b = split_lines new_text in build_hunks a b (diff_ops a b) context

-- Stats, of the lines of one hunk and of all
unfoldable pub line_stats : List Line → ℕ × ℕ
line_stats [] = (0, 0)
line_stats (l ∷ lines) =
    let (adds, dels) = line_stats lines in
    elim l.kind [ kept ↦ (adds, dels) | gone ↦ (adds, suc dels) | added ↦ (suc adds, dels) ]

unfoldable pub stats : List Hunk → ℕ × ℕ
unfolding line_stats
stats [] = (0, 0)
stats (h ∷ hunks) =
    let (adds, dels) = line_stats h.lines in
    let (more_adds, more_dels) = stats hunks in (adds + more_adds, dels + more_dels)
