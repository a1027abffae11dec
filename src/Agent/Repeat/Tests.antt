-- ===== src/Agent/Repeat/Tests.antt =====
-- A call made three times, and the theorem at it.
use be_code_redux.Base.{
  [], Text, codes, text_keyed, nat_keyed, some, none, lookup, insert, ◌≡◌, ◌<◌, ◌≤◌, ◌⊎◌, refl,
  arith,
}
use be_code_redux.Agent.Repeat.{Tracker, counted, note, key_of}
use be_code_redux.Agent.Repeat.Counting.{IsNew, again, note-footer}

program : Unit {0}
unfolding lookup insert counted note
program = tt

abbrev as_written : Text → Text
as_written s = s

abbrev twice : Tracker
twice = again as_written as_written (codes "read") (codes "f") (codes "text") refl 2 []

third : (note as_written as_written (codes "read") (codes "f") (codes "text") twice).1 ≡ some 3
unfolding program
third = refl

changed : (note as_written as_written (codes "read") (codes "f") (codes "other") twice).1 ≡ none
unfolding program
changed = refl

unseen : IsNew (key_of as_written as_written (codes "read") (codes "f")) (codes "text") []
unfolding lookup
unseen e h = cc

note-footer_example :
    ((3 < 3)
      × ((note as_written as_written (codes "read") (codes "f") (codes "text") twice).1 ≡ none))
    ⊎ ((3 ≤ 3)
        × ((note as_written as_written (codes "read") (codes "f") (codes "text") twice).1 ≡ some 3))
note-footer_example =
    note-footer as_written as_written (codes "read") (codes "f") (codes "text") 2 [] refl
      (omega arith) unseen
