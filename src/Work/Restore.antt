-- ===== src/Work/Restore.antt =====
-- internal/workledger/restore.go: keeping what a file holds before it is overwritten, on a git
-- branch or in a copy beside it, and taking away old copies. Times are in nanoseconds; `now` is the
-- clock as PruneSidecars reads it, after the copy is written, `stamp` the clock's text in
-- each candidate for a name, before that, and `fuel` how many names a search may try.
pub mod Naming
use be_code_redux.Base.{
  ℕ, zero, suc, ◌+◌, ◌-◌, List, [], ◌∷◌, ◌++◌, Bool, true, false, not, ◌&&◌, ◌||◌, Text, codes,
  text_keyed, ◌==◌, nat_keyed, Option, none, some, if◌then◌else◌, Result, ok, err, ltb, leb,
  has_prefix,
}
use be_code_redux.Files.{
  System, Stat, present, not_there, no_answer, stat, Contents, found, gone, unreadable, read,
  Removal, removed, missing, kept_back, Entry,
}
use be_code_redux.Work.Git.{candidate, is_repo, ignored, in_tree, snapshot_to, Failure}

-- Restore without the command line that brings the file back, which `how_to` gives.
pub data Restore : Type 0 where
  nothing_to_keep : Restore
  on_branch : Text → Restore
  in_sidecar : Text → Restore

-- Why nothing could be kept.
pub data Loss : Type 0 where
  cannot_stat : Loss
  cannot_read : Loss
  cannot_write : Loss

-- `none` is a search for a name that has not ended.
abbrev pub Kept : Type 0
Kept = Option (Result Loss Restore)

abbrev pub sidecar_mark : Text
sidecar_mark = codes ".overwritten-"

abbrev pub overwrite_prefix : Text
overwrite_prefix = codes "be-code/pre-overwrite/"

-- strings.Contains
unfoldable pub contains : Text → Text → Bool
contains [] part = part == []
contains (c ∷ s) part = has_prefix (c ∷ s) part || contains s part

abbrev pub is_free : Stat → Bool
is_free (present mode) = false
is_free not_there = true
is_free no_answer = false

module _ (S : System) where
  -- The loop for the sidecar's name: it ends at a candidate that is not there.
  unfoldable pub free_name : ℕ → S.Disk → (ℕ → Text) → ℕ → Option Text
  free_name zero d names i = none
  free_name (suc fuel) d names i =
      let more = free_name fuel d names (i + 1) in
      if is_free (stat S d (candidate names i)) then some (candidate names i) else more

  -- Not after `now` less `keep`
  abbrev pub is_old : ℕ → ℕ → Option ℕ → Bool
  is_old now keep none = false
  is_old now keep (some time) = leb (time + keep) now

  abbrev pub one_more : Removal → ℕ → ℕ
  one_more removed n = n + 1
  one_more missing n = n
  one_more kept_back n = n

  -- PruneSidecars' loop; the number counts the files taken away.
  unfoldable pub prune_entries : ℕ → ℕ → Text → List Entry → S.Disk × ℕ → S.Disk × ℕ
  unfolding contains
  prune_entries now keep folder [] (d, n) = (d, n)
  prune_entries now keep folder (e ∷ entries) (d, n) =
      let path = S.joined folder e.name in
      prune_entries now keep folder entries (
        if e.is_folder
          || not (contains e.name sidecar_mark)
          || not (is_old now keep (S.modified d path))
        then (d, n)
        else (let (after, r) = S.remove d path in (after, one_more r n)))

  abbrev pub prune_listed : ℕ → ℕ → Text → S.Disk → Option (List Entry) → S.Disk × ℕ
  prune_listed now keep folder d none = (d, 0)
  prune_listed now keep folder d (some entries) = prune_entries now keep folder entries (d, 0)

  -- PruneSidecars
  unfoldable pub prune_sidecars : ℕ → ℕ → Text → S.Disk → S.Disk × ℕ
  unfolding prune_entries
  prune_sidecars now keep folder d = prune_listed now keep folder d (S.list_folder d folder)

  -- pruneBeside
  abbrev pub prune_beside : ℕ → ℕ → Text → S.Disk → S.Disk
  prune_beside now keep path d =
      if ltb 0 keep then (prune_sidecars now keep (S.folder_of path) d).0 else d

  module _ (now keep : ℕ) (stamp : ℕ → Text) where
    abbrev pub copy_to : Text → Text → S.Disk → Option Text → S.Disk × Kept
    copy_to path bytes d none = (d, none)
    copy_to path bytes d (some name) =
        let (after, done) = S.write d name bytes 384 in
        if done
        then (prune_beside now keep path after, some (ok (in_sidecar name)))
        else (after, some (err cannot_write))

    abbrev pub copy_of : ℕ → Text → S.Disk → Contents → S.Disk × Kept
    copy_of fuel path d gone = (d, some (err cannot_read))
    copy_of fuel path d unreadable = (d, some (err cannot_read))
    copy_of fuel path d (found bytes) =
        copy_to path bytes d (free_name fuel d (λ i. path ++ sidecar_mark ++ stamp i) 0)

    -- sidecar
    unfoldable pub sidecar : ℕ → Text → S.Disk → S.Disk × Kept
    unfolding free_name prune_sidecars
    sidecar fuel path d = copy_of fuel path d (read S d path)
