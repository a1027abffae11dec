-- ===== src/Work/Keep.antt =====
-- KeepOld of internal/workledger/restore.go, and Resolve of internal/workledger/resolve.go: what
-- happens to a file that changed since the session read it.
pub mod Copying
pub mod Keeping
use be_code_redux.Base.{
  ℕ, ◌+◌, ◌<◌, ◌⊎◌, ◌≡◌, List, [], ◌∷◌, ◌++◌, Bool, true, false, not, ◌&&◌, Text, codes, text_keyed,
  ◌==◌, Option, none, some, if◌then◌else◌, Result, ok, err, has_prefix,
}
use be_code_redux.Files.{System, Stat, present, not_there, no_answer, stat}
use be_code_redux.Work.Git.{is_repo, ignored, in_tree, snapshot_to, Failure, still_searching}
use be_code_redux.Work.Restore.{
  Restore, nothing_to_keep, on_branch, in_sidecar, Loss, cannot_stat, Kept, overwrite_prefix,
  sidecar,
}

-- Attendance
pub data Attendance : Type 0 where
  attended : Attendance
  unattended : Attendance

-- Decision
pub data Decision : Type 0 where
  keep_mine : Decision
  keep_theirs : Decision

-- What the session tells the user.
pub data Notice : Type 0 where
  kept_at : Text → Restore → Notice
  not_kept : Text → Loss → Notice

-- What one process knows and has: its workspace, the clock, the clock when PruneSidecars reads it
-- again, how long sidecars are kept, the clock's text in each candidate for a sidecar's name and for a
-- branch's, the path of a private index if one could be made, and how many names a search may try.
pub record Setting : Type 0 where
  pub workspace : Text
  pub now : ℕ
  pub later : ℕ
  pub keep : ℕ
  pub stamp : ℕ → Text
  pub branch_stamp : ℕ → Text
  pub index : Option Text
  pub fuel : ℕ

-- Old copies are taken away less than `keep` after the copy is written, or none is.
abbrev pub IsPrompt : Setting → Type 0
IsPrompt at = (at.keep ≡ 0) ⊎ (at.later < at.now + at.keep)

-- inside
abbrev pub is_inside : Option Text → Bool
is_inside none = false
is_inside (some rel) = not (rel == codes "..") && not (has_prefix rel (codes "../"))

abbrev pub rel_or_dot : Option Text → Text
rel_or_dot none = codes "."
rel_or_dot (some rel) = rel

module _ (S : System) (at : Setting) where
  abbrev pub Outcome : Type 0
  Outcome = S.Disk × S.Repo × Kept

  abbrev pub beside : Text → S.Disk → S.Repo → Outcome
  beside path d r =
      let (after, kept) = sidecar S at.later at.keep at.stamp at.fuel path d in (after, r, kept)

  -- A branch counts once it is seen to hold the path.
  abbrev pub held_by : Text → S.Disk → S.Repo × Result Failure Text → Outcome
  held_by path d (r, ok branch) =
      let (after, holds) = in_tree S d branch (rel_or_dot (S.relative at.workspace path)) r in
      if holds then (d, after, some (ok (on_branch branch))) else beside path d after
  held_by path d (r, err still_searching) = (d, r, none)
  held_by path d (r, err e) = beside path d r

  abbrev pub snapshot : S.Disk → S.Repo → S.Repo × Result Failure Text
  snapshot d r = snapshot_to S d at.fuel at.index at.branch_stamp overwrite_prefix message r
    where
      message : Text
      message = codes "be-code: before overwriting a change this session did not make"

  abbrev pub unless_ignored : Text → S.Disk → S.Repo × Bool → Outcome
  unless_ignored path d (r, true) = beside path d r
  unless_ignored path d (r, false) = held_by path d (snapshot d r)

  abbrev pub where_repository : Text → S.Disk → S.Repo × Bool → Outcome
  where_repository path d (r, false) = beside path d r
  where_repository path d (r, true) = unless_ignored path d (ignored S d path r)

  abbrev pub where_inside : Text → S.Disk → S.Repo → Bool → Outcome
  where_inside path d r false = beside path d r
  where_inside path d r true = where_repository path d (is_repo S d r)

  abbrev pub keep_present : Text → S.Disk → S.Repo → Stat → Outcome
  keep_present path d r not_there = (d, r, some (ok nothing_to_keep))
  keep_present path d r no_answer = (d, r, some (err cannot_stat))
  keep_present path d r (present mode) =
      where_inside path d r (is_inside (S.relative at.workspace path))

  -- KeepOld
  unfoldable pub keep_old : Text → S.Disk → S.Repo → Outcome
  unfolding is_repo ignored in_tree snapshot_to sidecar
  keep_old path d r = keep_present path d r (stat S d path)

  -- What Resolve hands back: the decision or an error, and the notices; `none` as in `Kept`.
  abbrev pub Resolved : Type 0
  Resolved = S.Disk × S.Repo × Option (Result Loss Decision × List Notice)

  abbrev pub chosen : Text → Outcome → Resolved
  chosen path (d, r, none) = (d, r, none)
  chosen path (d, r, some (err e)) = (d, r, some (ok keep_mine, not_kept path e ∷ []))
  chosen path (d, r, some (ok nothing_to_keep)) = (d, r, some (ok keep_mine, []))
  chosen path (d, r, some (ok to)) = (d, r, some (ok keep_mine, kept_at path to ∷ []))

  abbrev pub unasked : Text → Outcome → Resolved
  unasked path (d, r, none) = (d, r, none)
  unasked path (d, r, some (err e)) = (d, r, some (err e, []))
  unasked path (d, r, some (ok nothing_to_keep)) = (d, r, some (ok keep_mine, []))
  unasked path (d, r, some (ok to)) = (d, r, some (ok keep_mine, kept_at path to ∷ []))

  -- Resolve with a notice to say; `ask` is the answer of the approver, if there is one.
  unfoldable pub resolve : Option Bool → Attendance → Text → S.Disk → S.Repo → Resolved
  unfolding keep_old
  resolve (some true) attended path d r = chosen path (keep_old path d r)
  resolve (some false) attended path d r = (d, r, some (ok keep_theirs, []))
  resolve ask who path d r = unasked path (keep_old path d r)

-- The command that brings a file back, as Restore.HowTo has it.
abbrev pub how_to : Text → Text → Restore → Text
how_to path rel nothing_to_keep = []
how_to path rel (on_branch branch) =
    codes "git restore --source=" ++ branch ++ codes " --staged --worktree -- " ++ rel
how_to path rel (in_sidecar name) = codes "cp " ++ name ++ codes " " ++ path
