-- ===== src/Tools/Writes.antt =====
-- internal/tools/fs.go: what write_file does once the write is approved, for a session with a work
-- ledger and a checkpointer: the conflict hook, the checkpoint, the write and the ledger's note.
-- Of post_write hooks only their effect on the disk is a parameter.
pub mod Keeping
pub mod Undoing
pub mod Warranted
mod Tests
use be_code_redux.Base.{
  ℕ, List, [], ◌∷◌, ◌++◌, Bool, true, false, Text, text_keyed, Option, none, some, if◌then◌else◌,
  Result, ok, err,
}
use be_code_redux.Files.{System, Contents, found, gone, unreadable, read}
use be_code_redux.Checkpoint.{Checkpointer, record_file}
use be_code_redux.Work.Keep.{Setting, Attendance, Notice}
use be_code_redux.Work.Restore.{Loss}
use be_code_redux.Work.Seen.{shown}
use be_code_redux.Work.Ledger.{Ledger, Sources, WorkRecord, Verdict, on_conflict, on_wrote, on_read}

-- Why the file was not written.
pub data Refusal : Type 0 where
  other_kept : Refusal
  nowhere_to_keep : Loss → Refusal
  checkpoint_failed : Refusal
  no_folder : Refusal
  not_written : Refusal

module _ (S : System) where
  abbrev pub outcome : S.Disk × Bool → Refusal → S.Disk × Option Refusal
  outcome (d, true) e = (d, none)
  outcome (d, false) e = (d, some e)

  abbrev pub into_folder : Text → Text → S.Disk × Bool → S.Disk × Option Refusal
  into_folder abs bytes (d, false) = (d, some no_folder)
  into_folder abs bytes (d, true) = outcome (S.write d abs bytes 420) not_written

  -- os.MkdirAll and os.WriteFile
  unfoldable pub store_file : Text → Text → S.Disk → S.Disk × Option Refusal
  store_file abs bytes d = into_folder abs bytes (S.make_folders d (S.folder_of abs))

  -- The state, the disk and why it was not written.
  abbrev pub Written : Type 0
  Written = Checkpointer × S.Disk × Option Refusal

  abbrev pub with_state : Checkpointer → S.Disk × Option Refusal → Written
  with_state c (d, e) = (c, d, e)

  abbrev pub if_recorded : Text → Text → Checkpointer × S.Disk × Bool → Written
  if_recorded abs bytes (c, d, false) = (c, d, some checkpoint_failed)
  if_recorded abs bytes (c, d, true) = with_state c (store_file abs bytes d)

  -- beforeWrite, then the write
  unfoldable pub write_recorded : Text → Text → Checkpointer → S.Disk → Written
  unfolding record_file store_file
  write_recorded abs bytes c d = if_recorded abs bytes (record_file S abs c d)

  -- Writes of files of the workspace, by name, in order; one that is refused does not stop them.
  unfoldable pub write_all : List (Text × Text) → Checkpointer × S.Disk → Checkpointer × S.Disk
  unfolding write_recorded
  write_all [] (c, d) = (c, d)
  write_all ((r, bytes) ∷ writes) (c, d) =
      let (c', d', e) = write_recorded (S.joined c.root r) bytes c d in write_all writes (c', d')

  module _ (hash : Text → Text) (at : Setting) where
    abbrev pub on_disk_or : Text → Contents → Text
    on_disk_or wrote (found bytes) = bytes
    on_disk_or wrote gone = wrote
    on_disk_or wrote unreadable = wrote

    -- noteWritten
    unfoldable pub note_written : Text → Text → Sources → Ledger → S.Disk → Ledger
    unfolding on_wrote on_read
    note_written abs wrote src l d =
        (on_read hash abs (on_disk_or wrote (read S d abs)) src
          (on_wrote (shown S.relative at.workspace abs) src l).0).0

    -- What write_file hands back: the two states, the disk and the repository, why it was not
    -- written, and the notices; `none` is a search for a sidecar's name that has not ended.
    abbrev pub Wrote : Type 0
    Wrote = Ledger × Checkpointer × S.Disk × S.Repo × Option (Option Refusal × List Notice)

    abbrev pub hooked :
        (S.Disk → S.Disk) → Text → Text → Sources → Ledger → S.Repo → List Notice → Written → Wrote
    hooked post_write abs bytes src l r notices (c, d, some e) =
        (l, c, d, r, some (some e, notices))
    hooked post_write abs bytes src l r notices (c, d, none) =
        let after = post_write d in
        (note_written abs bytes src l after, c, after, r, some (none, notices))

    abbrev pub if_no_conflict :
        (S.Disk → S.Disk) → Text → Text → Sources → Checkpointer → Verdict hash S at → Wrote
    if_no_conflict post_write abs bytes src c (l, d, r, none) = (l, c, d, r, none)
    if_no_conflict post_write abs bytes src c (l, d, r, some (err e, notices)) =
        (l, c, d, r, some (some (nowhere_to_keep e), notices))
    if_no_conflict post_write abs bytes src c (l, d, r, some (ok false, notices)) =
        (l, c, d, r, some (some other_kept, notices))
    if_no_conflict post_write abs bytes src c (l, d, r, some (ok true, notices)) =
        hooked post_write abs bytes src l r notices (write_recorded abs bytes c d)

    -- write_file of the path `abs`
    unfoldable pub write_file :
        (S.Disk → S.Disk)
        → Option Bool
        → Attendance
        → Text
        → Text
        → Sources
        → Ledger
        → Checkpointer
        → S.Disk
        → S.Repo
        → Wrote
    unfolding on_conflict write_recorded note_written
    write_file post_write ask who abs bytes src l c d r =
        if_no_conflict post_write abs bytes src c (on_conflict hash S at ask who abs l d r)
