-- ===== src/Tui/History/Tests.antt =====
-- Two terminals on one history, and the theorems at them.
use be_code_redux.Base.{
  nat_keyed, ◌+◌, ◌-◌, ◌⊎◌, [], ◌∷◌, false, codes, Text, ◌≡◌, refl, arith, some, get_elem?, lookup,
  insert, erase,
}
use be_code_redux.Tui.History.{
  InputHistory, load_history, load_lines, cursor, add, stored, prev, next, line, nothing,
}
use be_code_redux.Tui.History.Recall.{prev-next}
use be_code_redux.Paths.{split, trim_space}

program : Unit {0}
unfolding load_history load_lines cursor add stored prev next lookup insert erase split trim_space
program = tt

abbrev two : InputHistory
two = record { lines = codes "one" ∷ codes "two" ∷ []; cursors = (7, 1) ∷ []; dirty = false }

loaded : (load_history (codes "one\n \ntwo\n")).lines ≡ two.lines
unfolding program
loaded = refl

up : prev two 4 ≡ (record two { cursors = (7, 1) ∷ (4, 1) ∷ [] }, line (codes "two"))
unfolding program
up = refl

prev-next_example :
    ((cursor two 7 ≡ 0) × (prev two 7 ≡ (two, nothing)))
    ⊎ ((l : Text) × ((prev two 7).1 ≡ line l)
        × (get_elem? two.lines (cursor two 7 - 1) ≡ some l)
        × (cursor (prev two 7).0 7 + 1 ≡ cursor two 7)
        × (cursor (next (prev two 7).0 7).0 7 ≡ cursor two 7)
        × (cursor (prev two 7).0 4 ≡ cursor two 4)
        × (cursor (next (prev two 7).0 7).0 4 ≡ cursor two 4))
prev-next_example = prev-next two 7 4 (omega arith)

walking : lookup 7 two.cursors ≡ some 1
unfolding lookup
walking = refl
