-- ===== src/Schedule/Doc/Tests.antt =====
-- A document with a broken section, and the theorems at it.
use be_code_redux.Base.{[], ◌∷◌, false, Text, codes, text_keyed, none, ◌≡◌, refl, length}
use be_code_redux.Schedule.Spec.{active}
use be_code_redux.Schedule.Doc.{
  Schedule, Section, Doc, fresh, put_section, put, remove_section, remove, schedules,
}
use be_code_redux.Schedule.Doc.Map.{meaning, written, erased, unread, IsMap, is_some}
use be_code_redux.Schedule.Doc.Putting.{put-refines}
use be_code_redux.Schedule.Doc.Removing.{remove-refines}

program : Unit {0}
unfolding put_section put remove_section remove
program = tt

abbrev nightly : Text → Text → Schedule
nightly id name = record {
  id = id;
  name = name;
  when = codes "daily 02:00";
  instruction = codes "run the tests";
  task = [];
  allow = [];
  state = active;
  created_by = codes "person";
  created = 5;
  last_run = 0;
  last_outcome = [];
  failures = 0;
  ask_timeout = 0;
  max_runtime = 0;
  extra = [];
}

abbrev broken : Section
broken = record { raw = codes "## X"; sched = none; fault = codes "name" }

abbrev two : Doc
two = record {
  preamble = [];
  sections =
      fresh (nightly (codes "a1") (codes "tests"))
      ∷ broken
      ∷ fresh (nightly (codes "b2") (codes "lint"))
      ∷ [];
}

replaced : length (schedules (put (nightly (codes "b2") (codes "vet")) two)) ≡ 2
unfolding program
replaced = refl

absent : (remove (codes "c3") two).1 ≡ false
unfolding program
absent = refl

apart : IsMap two
apart = ((refl, tt), (tt, tt))

put-refines_example :
    ((id : Text)
      → meaning (put (nightly (codes "b2") (codes "vet")) two) id
        ≡ written (nightly (codes "b2") (codes "vet")) (meaning two) id)
    × IsMap (put (nightly (codes "b2") (codes "vet")) two)
    × (unread (put (nightly (codes "b2") (codes "vet")) two).sections ≡ unread two.sections)
put-refines_example = put-refines (nightly (codes "b2") (codes "vet")) two apart

remove-refines_example :
    ((i : Text) → meaning (remove (codes "a1") two).0 i ≡ erased (codes "a1") (meaning two) i)
    × ((remove (codes "a1") two).1 ≡ is_some (meaning two (codes "a1")))
    × IsMap (remove (codes "a1") two).0
    × (unread (remove (codes "a1") two).0.sections ≡ unread two.sections)
remove-refines_example = remove-refines (codes "a1") two apart
