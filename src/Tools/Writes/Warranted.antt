-- ===== src/Tools/Writes/Warranted.antt =====
-- What a write by write_file rests on, and what the session has seen after it.
use be_code_redux.Base.{List, Bool, ◌&&◌, Text, text_keyed, Option, ◌≡◌}
use be_code_redux.Files.{System, found, read, IsLawful}
use be_code_redux.Checkpoint.{Checkpointer}
use be_code_redux.Work.Keep.{Setting, IsPrompt, Attendance, Notice}
use be_code_redux.Work.Ledger.{Ledger, Sources, is_active, has_changed}
use be_code_redux.Work.Ledger.Conflicts.{MayWrite}
use be_code_redux.Work.Ledger.Judged.{is_gone}
use be_code_redux.Tools.Writes.{on_disk_or}

module _ (hash : Text → Text) (S : System) (at : Setting) (abs wrote : Text) where
  module _ (d : S.Disk) where
    -- The session's next question about the file finds a change only where the file is gone.
    abbrev pub IsSettled : Ledger → Type 0
    IsSettled l = has_changed hash (read S d) abs l ≡ (is_active l && is_gone (read S d abs))

    abbrev content : Text
    content = on_disk_or S hash at wrote (read S d abs)

module _ (hash : Text → Text) (S : System) (at : Setting) (laws : IsLawful S at.now)
    (prompt : IsPrompt at) (abs held : Text) (d : S.Disk) (holds : read S d abs ≡ found held)
    (bytes : Text) (post_write : S.Disk → S.Disk) (src : Sources) (ask : Option Bool)
    (who : Attendance) (l : Ledger) (c : Checkpointer) (r : S.Repo) where
  -- What is known once a write is reported.
  abbrev pub IsWarranted : Ledger → S.Disk → S.Repo → List Notice → Type 0
  IsWarranted l' d' r' notices =
      ((between : S.Disk) × MayWrite hash S at laws prompt abs held d holds ask who l between r'
          notices)
      × IsSettled hash S at abs bytes d' l'
