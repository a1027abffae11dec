-- ===== src/Diff/Tests.antt =====
-- Small runs of diffOps, and the theorems at these inputs.
use be_code_redux.Base.{List, [], ◌∷◌, codes, Text, ◌≡◌, refl, map, some, length, arith, ◌≤◌}
use be_code_redux.Diff.{
  Op, diff_ops, keep_op, gone_op, added_op, common, middle_ops, lcs_ops, read_ops, fill_table,
  fill_row, zeros, cell, keep_ops, gone_ops, added_ops,
}
use be_code_redux.Diff.Script.{Walk, keep, drop_line, add_line, stop}
use be_code_redux.Diff.Patch.{diff_ops-patches, old_lines, new_lines}
use be_code_redux.Diff.Longest.{diff_ops-longest, count_kept}

program : Unit {0}
unfolding diff_ops common middle_ops lcs_ops read_ops fill_table fill_row zeros cell keep_ops
    gone_ops added_ops
program = tt

abbrev before : List Text
before = codes "a" ∷ codes "b" ∷ codes "c" ∷ codes "d" ∷ []

abbrev after : List Text
after = codes "a" ∷ codes "x" ∷ codes "c" ∷ codes "y" ∷ codes "d" ∷ []

run :
    diff_ops before after
    ≡ keep_op 0 0 ∷ gone_op 1 ∷ added_op 1 ∷ keep_op 2 2 ∷ added_op 3 ∷ keep_op 3 4 ∷ []
unfolding program
run = refl

diff_ops-patches_example :
    Walk before after (diff_ops before after) 0 0 (length before) (length after)
    × (old_lines before (diff_ops before after) ≡ map some before)
    × (new_lines before after (diff_ops before after) ≡ map some after)
diff_ops-patches_example = diff_ops-patches before after

abbrev poor : List Op
poor = keep_op 0 0 ∷ gone_op 1 ∷ gone_op 2 ∷ added_op 1 ∷ added_op 2 ∷ added_op 3 ∷ keep_op 3 4 ∷ []

poor-Walk : Walk before after poor 0 0 (length before) (length after)
poor-Walk = keep (codes "a") refl refl (
    drop_line (codes "b") refl (
      drop_line (codes "c") refl (
        add_line (codes "x") refl (
          add_line (codes "c") refl
            (add_line (codes "y") refl (keep (codes "d") refl refl stop))))))

diff_ops-longest_example : 2 ≤ count_kept (diff_ops before after)
diff_ops-longest_example = diff_ops-longest before after poor (omega arith) poor-Walk
