-- ===== src/Tools/Edits/Tests.antt =====
-- Edits of short texts, one where two matches overlap.
use be_code_redux.Base.{◌++◌, Text, codes, text_keyed, nat_keyed, ok, err, ◌≡◌, refl}
use be_code_redux.Tools.Edits.{not_found, many_places, count_from, count, replace_first, edited}
use be_code_redux.Tools.Edits.Once.{IsFirstMatch, IsAbsent, edited-once}

program : Unit {0}
unfolding count_from replace_first edited
program = tt

in_the_middle : edited (codes "b") (codes "xy") (codes "abc") ≡ ok (codes "axyc")
unfolding program
in_the_middle = refl

in_two_places : edited (codes "b") (codes "x") (codes "bab") ≡ err (many_places 2)
unfolding program
in_two_places = refl

-- The text stands at the first byte and at the second, and counts once.
overlapping : edited (codes "aa") (codes "b") (codes "aaa") ≡ ok (codes "ba")
unfolding program
overlapping = refl

edited-once_example :
    ((t : Text)
      → edited (codes "b") (codes "xy") (codes "abc") ≡ ok t
      → (u : Text) × (v : Text) × IsFirstMatch (codes "b") (codes "abc") u v
        × (t ≡ u ++ (codes "xy" ++ v))
        × (count (codes "b") v ≡ 0))
    × (edited (codes "b") (codes "xy") (codes "abc") ≡ err not_found
        → IsAbsent (codes "b") (codes "abc"))
edited-once_example = edited-once (codes "b") (codes "xy") (codes "abc")
