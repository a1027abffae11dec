-- ===== src/Tools/Writes/Tests.antt =====
-- A turn that changes one file and makes another, and its undo.
use be_code_redux.Base.{
  List, [], ◌∷◌, Text, codes, text_keyed, nat_keyed, ◌==◌, true, false, none, some, lookup, insert,
  erase, inl, inr, ◌⊎◌, ◌≡◌, ◌≢◌, refl, sym, subst,
}
use be_code_redux.Decimal.{digits, itoa}
use be_code_redux.Paths.{split, join}
use be_code_redux.Files.{System, read, stat, no_answer, is_under}
use be_code_redux.Files.Memory.{
  Disk, memory_system, memory_system-IsLawful, no_git, children, without,
}
use be_code_redux.Checkpoint.{
  Files, Turn, Checkpointer, begin_turn, new_folder, turns, record_in, record_file, last_non_empty,
  undo_files, undo,
}
use be_code_redux.Checkpoint.Views.{depth, changed_last, changed_all, first_seen}
use be_code_redux.Checkpoint.Saved.{IsLayout}
use be_code_redux.Tools.Writes.{store_file, write_recorded, write_all}
use be_code_redux.Tools.Writes.Undoing.{undo-write_all}
use be_code_redux.Paths.{trim_space, trim_left, is_space}
use be_code_redux.Work.Git.{candidate, is_repo}
use be_code_redux.Work.Seen.{changed}
use be_code_redux.Work.Restore.{
  in_sidecar, contains, free_name, prune_entries, prune_sidecars, sidecar,
}
use be_code_redux.Work.Keep.{Setting, unattended, Notice, kept_at, keep_old, resolve}
use be_code_redux.Work.Ledger.{
  Ledger, Sources, write, with_path, on_wrote, on_read, on_conflict, has_changed,
}
use be_code_redux.Tools.Writes.{Wrote, note_written, write_file}

program : Unit {0}
unfolding lookup insert erase digits itoa split join children without begin_turn record_in
    record_file last_non_empty undo_files undo store_file write_recorded write_all depth
    changed_last changed_all first_seen trim_space trim_left is_space candidate is_repo changed
    contains free_name prune_entries prune_sidecars sidecar keep_old resolve write with_path
    on_wrote on_read on_conflict has_changed note_written write_file
program = tt

abbrev system : System
system = memory_system no_git 100

abbrev a : Text
a = codes "a"

abbrev b : Text
b = codes "b"

-- The names of the two files.
abbrev Named : Text → Type 0
Named r = (r ≡ a) ⊎ (r ≡ b)

module _ (P : Text → Text → Type 0) (aa : P a a) (ab : P a b) (ba : P b a) (bb : P b b) where
  each_two : (r s : Text) → Named r → Named s → P r s
  each_two r s (inl e) (inl f) = subst (λ x. P x s) (sym e) (subst (P a) (sym f) aa)
  each_two r s (inl e) (inr f) = subst (λ x. P x s) (sym e) (subst (P a) (sym f) ab)
  each_two r s (inr e) (inl f) = subst (λ x. P x s) (sym e) (subst (P b) (sym f) ba)
  each_two r s (inr e) (inr f) = subst (λ x. P x s) (sym e) (subst (P b) (sym f) bb)

module _ (P : Text → Type 0) (at_a : P a) (at_b : P b) where
  each : (r : Text) → Named r → P r
  each r (inl e) = subst P (sym e) at_a
  each r (inr e) = subst P (sym e) at_b

abbrev before : Checkpointer
before = record { root = codes "/w"; base = codes "/k"; earlier = []; cur = none }

abbrev begun : Checkpointer
begun = begin_turn system (codes "turn") (codes "now") before

abbrev folder : Text
folder = new_folder system (codes "now") before

two_files : IsLayout system (codes "/w") folder Named
unfolding program
two_files = record {
  relative_joined =
      each (λ r. system.relative (codes "/w") (system.joined (codes "/w") r) ≡ some r) refl refl;
  inner = each _ refl refl;
  files_apart = λ r s q qs.
      each_two
        (λ r s.
          (r == s) ≡ false
          → is_under (system.joined (codes "/w") r) (system.joined (codes "/w") s) ≡ false)
        (λ e. cc (e)) (λ e. refl) (λ e. refl) (λ e. cc (e)) r s q qs;
  copies_apart = λ r s q qs.
      each_two
        (λ r s. (r == s) ≡ false → (system.joined folder r == system.joined folder s) ≡ false)
        (λ e. cc (e)) (λ e. refl) (λ e. refl) (λ e. cc (e)) r s q qs;
  copy_apart = each_two _ refl refl refl refl;
  file_apart = each_two _ refl refl refl refl;
  not_above = each_two _ refl refl refl refl;
  not_above_file = each_two _ refl refl refl refl;
  outside = each _ refl refl;
}

abbrev disk : Disk
disk = (codes "/w/a", record { mode = 420; bytes = codes "old"; time = 1 }) ∷ []

abbrev writes : List (Text × Text)
writes = (a, codes "new") ∷ (b, codes "made") ∷ (a, codes "newer") ∷ []

abbrev saved : Turn
saved = record {
  label = codes "turn";
  folder = codes "/k/t000-now";
  files =
      (a, record { existed = true; backup = codes "/k/t000-now/a"; mode = 420 })
      ∷ (b, record { existed = false; backup = []; mode = 0 })
      ∷ [];
  order = a ∷ b ∷ [];
}

listed_last : changed_last (record begun { cur = some saved }) ≡ a ∷ b ∷ []
unfolding program
listed_last = refl

listed_all : changed_all (saved ∷ []) ≡ a ∷ b ∷ []
unfolding program
listed_all = refl

one_deep : depth (turns (record begun { cur = some saved })) ≡ 1
unfolding program
one_deep = refl

abbrev as_listed : Files → Files
as_listed files = files

abbrev after : Disk
after = (write_all system writes (begun, disk)).1

abbrev undone : Disk
undone = (codes "/w/a", record { mode = 420; bytes = codes "old"; time = 100 }) ∷ []

undo-write_all_example :
    (turns before ≡ [])
    × ((s : Text)
        → Named s
        → stat system disk (system.joined (codes "/w") s) ≢ no_answer
        → read system undone (system.joined (codes "/w") s)
          ≡ read system disk (system.joined (codes "/w") s))
unfolding program
undo-write_all_example =
    undo-write_all system 100 (memory_system-IsLawful no_git 100) before (codes "turn")
      (codes "now") Named two_files as_listed (λ files e. (λ m. m, λ m. m)) writes disk after undone
      (record begun { cur = some saved }) before saved (a ∷ b ∷ [])
      (inl refl, (inr refl, (inl refl, tt))) refl refl refl refl

abbrev setting : Setting
setting = record {
  workspace = codes "/w";
  now = 100;
  later = 105;
  keep = 10;
  stamp = λ i. codes "now";
  branch_stamp = λ i. codes "now";
  index = none;
  fuel = 3;
}

abbrev sources : Sources
sources = record {
  clock = 100;
  clock_text = codes "now";
  branch_now = codes "main";
  state = none;
  session_id = none;
  running = none;
}

abbrev ledger : Ledger
ledger = record {
  enabled = true;
  closed = false;
  record_dir = some (codes "/d");
  last_touch = some 90;
  seen = (codes "/w/a", codes "mine") ∷ [];
  last_turn = 0;
  written = [];
  work = record {
    updated = [];
    branch = [];
    session = [];
    task = [];
    writing = [];
    jobs = [];
    recent = false;
  };
}

abbrev plain : Text → Text
plain s = s

abbrev no_hook : Disk → Disk
no_hook d = d

abbrev wrote : Wrote system plain setting
wrote =
    write_file system plain setting no_hook none unattended (codes "/w/a") (codes "new") sources
      ledger begun disk tt

abbrev notices : List Notice
notices = kept_at (codes "/w/a") (in_sidecar (codes "/w/a.overwritten-now")) ∷ []
