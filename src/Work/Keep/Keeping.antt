-- ===== src/Work/Keep/Keeping.antt =====
-- What KeepOld and Resolve promise: a change is written over only where a person who was there
-- said so or the old version is kept.
use be_code_redux.Base.{
  ℕ, List, [], ◌∷◌, Bool, true, false, Text, text_keyed, Option, none, some, Result, ok, err,
  ok-injective, inl, inr, ◌⊎◌, some-injective, if◌then◌else◌, ◌≡◌, refl, sym, ap, subst,
}
use be_code_redux.Files.{
  System, Node, file, closed, absent, refused, stat_of, contents_of, present, found, read, IsLawful,
}
use be_code_redux.Work.Git.{
  is_repo, ignored, in_tree, Failure, not_repository, no_private_index, git_failed, still_searching,
}
use be_code_redux.Work.Restore.{Restore, nothing_to_keep, on_branch, in_sidecar, Kept}
use be_code_redux.Work.Keep.{
  Setting, IsPrompt, Outcome, rel_or_dot, is_inside, beside, held_by, snapshot, unless_ignored,
  where_repository, where_inside, keep_present, keep_old, keep_mine, Attendance, attended,
  unattended, Notice, kept_at, Resolved, unasked, resolve,
}
use be_code_redux.Work.Keep.Copying.{IsCopy, sidecar-IsCopy}

module _ (S : System) (at : Setting) (laws : IsLawful S at.now) (prompt : IsPrompt at)
    (path bytes : Text) (d : S.Disk) (holds : read S d path ≡ found bytes) where
  -- The branch is the snapshot's, and the repository is left as git leaves it in saying that it
  -- lists the path in that branch.
  abbrev pub IsHeld : S.Repo → Text → Type 0
  IsHeld r' branch =
      (before : S.Repo) × (made : S.Repo) × (snapshot S at d before ≡ (made, ok branch))
      × (in_tree S d branch (rel_or_dot (S.relative at.workspace path)) made ≡ (r', true))

  -- Where the bytes that the disk `d` has at the path can be found once disk and repository are
  -- `after` and `r'`: on the snapshot's branch, or in a file at a name that was free.
  abbrev pub IsRecoverable : S.Disk → S.Repo → Restore → Type 0
  IsRecoverable after r' nothing_to_keep = ⊥
  IsRecoverable after r' (on_branch branch) = IsHeld r' branch
  IsRecoverable after r' (in_sidecar name) =
      IsCopy S at.now at.later at.keep at.stamp laws prompt bytes d after name

  abbrev IsSafe : Outcome S at → Type 0
  IsSafe (after, r, kept) = (to : Restore) → kept ≡ some (ok to) → IsRecoverable after r to

  beside-IsSafe : (r : S.Repo) → IsSafe (beside S at path d r)
  beside-IsSafe r to h =
      let (name, e, copy) =
        sidecar-IsCopy S at.now at.later at.keep at.stamp laws prompt at.fuel path bytes d _ to
          holds (paired _ h) in
      subst (IsRecoverable _ r) (sym e) copy
    where
      paired : (o : S.Disk × Kept) {kept : Kept} → o.1 ≡ kept → o ≡ (o.0, kept)
      paired o e = ap (λ k. (o.0, k)) e

  held_by-IsSafe :
      (before : S.Repo) (o : S.Repo × Result Failure Text)
      → snapshot S at d before ≡ o
      → IsSafe (held_by S at path d o)
  held_by-IsSafe before (r, ok branch) made =
      listed (in_tree S d branch (rel_or_dot (S.relative at.workspace path)) r) refl
    where
      listed :
          (w : S.Repo × Bool)
          → in_tree S d branch (rel_or_dot (S.relative at.workspace path)) r ≡ w
          → IsSafe (if w.1 then (d, w.0, some (ok (on_branch branch))) else beside S at path d w.0)
      listed (after, true) e = λ to h.
          subst (IsRecoverable d after) (ok-injective (some-injective h)) (before, r, made, e)
      listed (after, false) e = beside-IsSafe after
  held_by-IsSafe before (r, err still_searching) made = λ to h. cc
  held_by-IsSafe before (r, err not_repository) made = beside-IsSafe r
  held_by-IsSafe before (r, err no_private_index) made = beside-IsSafe r
  held_by-IsSafe before (r, err git_failed) made = beside-IsSafe r

  unless_ignored-IsSafe : (o : S.Repo × Bool) → IsSafe (unless_ignored S at path d o)
  unless_ignored-IsSafe (r, true) = beside-IsSafe r
  unless_ignored-IsSafe (r, false) = held_by-IsSafe r (snapshot S at d r) refl

  where_repository-IsSafe : (o : S.Repo × Bool) → IsSafe (where_repository S at path d o)
  where_repository-IsSafe (r, false) = beside-IsSafe r
  where_repository-IsSafe (r, true) = unless_ignored-IsSafe (ignored S d path r)

  where_inside-IsSafe : (r : S.Repo) (b : Bool) → IsSafe (where_inside S at path d r b)
  where_inside-IsSafe r false = beside-IsSafe r
  where_inside-IsSafe r true = where_repository-IsSafe (is_repo S d r)

  -- A file that can be read can be asked about.
  stat-read : (n : Node) → contents_of n ≡ found bytes → (m : ℕ) × (stat_of n ≡ present m)
  stat-read (file mode b) h = (mode, refl)
  stat-read (closed mode) h = cc
  stat-read absent h = cc
  stat-read refused h = cc

  pub keep_old-IsSafe : (r : S.Repo) → IsSafe (keep_old S at path d r)
  unfolding keep_old
  keep_old-IsSafe r =
      let (m, e) = stat-read (S.node d path) holds in
      subst (λ s. IsSafe (keep_present S at path d r s)) (sym e)
        (where_inside-IsSafe r (is_inside (S.relative at.workspace path)))

  -- What Resolve decides is to write only with the yes of a person who is there, or with the old
  -- version kept and the user told where.
  abbrev pub IsWarranted : Option Bool → Attendance → Resolved S at → Type 0
  IsWarranted ask who (after, r, end) =
      (notices : List Notice)
      → end ≡ some (ok keep_mine, notices)
      → ((ask ≡ some true) × (who ≡ attended))
        ⊎ ((to : Restore) × IsRecoverable after r to × (notices ≡ kept_at path to ∷ []))

  unasked-IsWarranted :
      (ask : Option Bool) (who : Attendance) (o : Outcome S at)
      → IsSafe o
      → IsWarranted ask who (unasked S at path o)
  unasked-IsWarranted ask who (after, r, none) safe = λ notices h. cc
  unasked-IsWarranted ask who (after, r, some (err e)) safe = λ notices h. cc
  unasked-IsWarranted ask who (after, r, some (ok nothing_to_keep)) safe =
      absurd (safe nothing_to_keep refl)
  unasked-IsWarranted ask who (after, r, some (ok (on_branch b))) safe = λ notices h.
      inr (on_branch b, safe (on_branch b) refl, sym (ap (λ r. r.1) (some-injective h)))
  unasked-IsWarranted ask who (after, r, some (ok (in_sidecar n))) safe = λ notices h.
      inr (in_sidecar n, safe (in_sidecar n) refl, sym (ap (λ r. r.1) (some-injective h)))

  pub resolve-IsWarranted :
      (ask : Option Bool) (who : Attendance) (r : S.Repo)
      → IsWarranted ask who (resolve S at ask who path d r)
  unfolding resolve
  resolve-IsWarranted (some true) attended r = λ notices h. inl (refl, refl)
  resolve-IsWarranted (some false) attended r = λ notices h. cc
  resolve-IsWarranted none attended r = unasked-IsWarranted none attended _ (keep_old-IsSafe r)
  resolve-IsWarranted none unattended r = unasked-IsWarranted none unattended _ (keep_old-IsSafe r)
  resolve-IsWarranted (some true) unattended r =
      unasked-IsWarranted (some true) unattended _ (keep_old-IsSafe r)
  resolve-IsWarranted (some false) unattended r =
      unasked-IsWarranted (some false) unattended _ (keep_old-IsSafe r)
