-- ===== src/Diff/Hunks/Tests.antt =====
-- Two changes in one text, and a change of its last line break.
use be_code_redux.Base.{List, [], ◌∷◌, ◌++◌, Text, codes, text_keyed, nat_keyed, ◌≡◌, refl}
use be_code_redux.Paths.{split}
use be_code_redux.Diff.{
  common, fill_table, fill_row, zeros, cell, read_ops, gone_ops, added_ops, keep_ops, lcs_ops,
  middle_ops, diff_ops,
}
use be_code_redux.Diff.Hunks.{
  Hunk, split_lines, last_change, a_start_for, b_start_for, line_of, lines_of, old_count, new_count,
  hunk_of, stop_for, hunks_from, build_hunks, unified, line_stats, stats,
}
use be_code_redux.Diff.Hunks.Stretches.{changed_lines}
use be_code_redux.Diff.Hunks.Shown.{hunk_changes}

program : Unit {0}
unfolding split common fill_table fill_row zeros cell read_ops gone_ops added_ops keep_ops lcs_ops
    middle_ops diff_ops split_lines last_change a_start_for b_start_for line_of lines_of old_count
    new_count hunk_of stop_for hunks_from build_hunks unified line_stats stats changed_lines
    hunk_changes
program = tt

abbrev old_lines : List Text
old_lines = codes "a" ∷ codes "b" ∷ codes "c" ∷ codes "d" ∷ codes "e" ∷ []

abbrev new_lines : List Text
new_lines = codes "x" ∷ codes "b" ∷ codes "c" ∷ codes "d" ∷ []

abbrev two_hunks : List Hunk
two_hunks = build_hunks old_lines new_lines (diff_ops old_lines new_lines) 1

counts : stats two_hunks ≡ (1, 2)
unfolding program
counts = refl

-- A line break that is taken from the end of a text is no change of a line.
no_hunk : unified (codes "a" ++ 10 ∷ []) (codes "a") 3 ≡ []
unfolding program
no_hunk = refl
