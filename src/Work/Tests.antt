-- ===== src/Work/Tests.antt =====
-- A file that changed under a session, and the theorems at it.
use be_code_redux.Base.{
  ℕ, List, [], ◌∷◌, Text, codes, text_keyed, nat_keyed, true, false, none, some, lookup, insert,
  erase, ◌≡◌, refl, inr, arith, ok,
}
use be_code_redux.Decimal.{digits, itoa}
use be_code_redux.Paths.{split, join, trim_space, trim_left, is_space}
use be_code_redux.Files.{System, found, read}
use be_code_redux.Files.Memory.{
  Disk, Stored, memory_system, memory_system-IsLawful, no_git, children, without,
}
use be_code_redux.Work.Git.{candidate, is_repo, ignored, in_tree, snapshot_to, free_branch}
use be_code_redux.Work.Seen.{changed, run_read, run_wrote, drifted}
use be_code_redux.Work.Seen.Drift.{Event, did_read, did_write, since_write, first_read, replay}
use be_code_redux.Work.Restore.{
  in_sidecar, contains, free_name, prune_entries, prune_sidecars, sidecar,
}
use be_code_redux.Work.Keep.{
  Setting, IsPrompt, attended, unattended, Notice, kept_at, keep_old, resolve,
}
use be_code_redux.Work.Ledger.{
  Ledger, WorkRecord, Sources, write, with_path, on_wrote, on_conflict, has_changed,
}
use be_code_redux.Work.Ledger.Conflicts.{MayWrite, on_conflict-MayWrite}
use be_code_redux.Work.Ledger.Judged.{is_gone, on_conflict-next}

program : Unit {0}
unfolding lookup insert erase digits itoa split join trim_space trim_left is_space children without
    candidate is_repo ignored in_tree snapshot_to free_branch changed run_read run_wrote drifted
    since_write first_read replay contains free_name prune_entries prune_sidecars sidecar keep_old
    resolve write with_path on_wrote on_conflict has_changed
program = tt

abbrev system : System
system = memory_system no_git 100

abbrev setting : Setting
setting = record {
  workspace = codes "/w";
  now = 100;
  later = 105;
  keep = 10;
  stamp = λ i. codes "now";
  branch_stamp = λ i. codes "now";
  index = none;
  fuel = 3;
}

abbrev stored : Text → ℕ → Stored
stored bytes time = record { mode = 420; bytes = bytes; time = time }

-- The file and an old copy of it that is due to go.
abbrev disk : Disk
disk =
    (codes "/w/a", stored (codes "theirs") 50)
    ∷ (codes "/w/a.overwritten-then", stored (codes "older") 50)
    ∷ []

abbrev no_record : WorkRecord
no_record = record {
  updated = [];
  branch = [];
  session = [];
  task = [];
  writing = [];
  jobs = [];
  recent = false;
}

abbrev ledger : Ledger
ledger = record {
  enabled = true;
  closed = false;
  record_dir = some (codes "/d");
  last_touch = none;
  seen = (codes "/w/a", codes "mine") ∷ [];
  last_turn = 0;
  written = [];
  work = no_record;
}

in_time : IsPrompt setting
in_time = inr (omega arith)

abbrev sources : Sources
sources = record {
  clock = 100;
  clock_text = codes "now";
  branch_now = codes "main";
  state = some (codes "T1", 4);
  session_id = none;
  running = none;
}

abbrev plain : Text → Text
plain s = s

abbrev sidecar_name : Text
sidecar_name = codes "/w/a.overwritten-now"

abbrev copied_disk : Disk
copied_disk =
    (codes "/w/a", stored (codes "theirs") 50)
    ∷ (sidecar_name, record { mode = 384; bytes = codes "theirs"; time = 100 })
    ∷ []

abbrev told : List Notice
told = kept_at (codes "/w/a") (in_sidecar sidecar_name) ∷ []

holds : read system disk (codes "/w/a") ≡ found (codes "theirs")
unfolding program
holds = refl

on_conflict-MayWrite_example :
    MayWrite plain system setting
      (memory_system-IsLawful no_git 100)
      in_time
      (codes "/w/a")
      (codes "theirs")
      disk
      holds
      none
      unattended
      ledger
      copied_disk
      tt
      told
unfolding program
on_conflict-MayWrite_example =
    on_conflict-MayWrite plain system setting (memory_system-IsLawful no_git 100) in_time
      (codes "/w/a") (codes "theirs") disk holds none unattended ledger ledger tt tt copied_disk
      told refl

abbrev gave_way : Ledger
gave_way = record ledger { seen = (codes "/w/a", codes "theirs") ∷ [] }

on_conflict-next_example :
    (disk ≡ disk)
    × (has_changed plain (read system disk) (codes "/w/a") gave_way
        ≡ is_gone (read system disk (codes "/w/a")))
unfolding program
on_conflict-next_example =
    on_conflict-next plain system setting (codes "/w/a") disk (some false) attended ledger gave_way
      tt tt disk [] refl

abbrev wrote : Ledger
wrote = (on_wrote (codes "a") sources ledger).0

written_list : wrote.work.writing ≡ codes "a" ∷ []
unfolding program
written_list = refl

abbrev events : List Event
events =
    did_read (codes "/w/a") (codes "one")
    ∷ did_write (codes "/w/a")
    ∷ did_read (codes "/w/a") (codes "two")
    ∷ did_read (codes "/w/a") (codes "three")
    ∷ []

drifted_now : drifted plain (read system disk) (replay plain events []) ≡ codes "/w/a" ∷ []
unfolding program
drifted_now = refl

abbrev crowded : Disk
crowded =
    (codes "/w/a", stored (codes "theirs") 50) ∷ (sidecar_name, stored (codes "older") 99) ∷ []

second_name :
    (sidecar system 105 10 (λ i. codes "now") 2 (codes "/w/a") crowded).1
    ≡ some (ok (in_sidecar (codes "/w/a.overwritten-now-2")))
unfolding program
second_name = refl

-- Kept for two nanoseconds, and the clock three further on when old copies are taken away: the copy
-- that the result names is gone.
pruned_at_once :
    sidecar system 103 2 (λ i. codes "now") 2 (codes "/w/a") disk
    ≡ ((codes "/w/a", stored (codes "theirs") 50) ∷ [], some (ok (in_sidecar sidecar_name)))
unfolding program
pruned_at_once = refl
