-- ===== src/Work/Git.antt =====
-- internal/gitctx/gitctx.go: the questions asked of git and the snapshot of the working tree on a
-- new branch. Running git is the system's; the name of the private index, the clock's stamps and
-- how many names for the branch are tried are parameters.
use be_code_redux.Base.{
  ℕ, zero, suc, ◌+◌, List, [], ◌∷◌, ◌++◌, Bool, true, false, not, Text, codes, text_keyed, ◌==◌,
  Option, none, some, if◌then◌else◌, Result, ok, err,
}
use be_code_redux.Decimal.{itoa}
use be_code_redux.Paths.{trim_space}
use be_code_redux.Files.{System}

-- Why no snapshot was made, and a search for a name that has not ended.
pub data Failure : Type 0 where
  not_repository : Failure
  no_private_index : Failure
  git_failed : Failure
  still_searching : Failure

-- The candidates for a name: the stamped one, then those with -2, -3 and so on. The clock is read
-- for each, so the stamped names are a sequence.
unfoldable pub candidate : (ℕ → Text) → ℕ → Text
candidate names zero = names 0
candidate names (suc i) = names (suc i) ++ b'-' ∷ itoa (i + 2)

module _ (S : System) (d : S.Disk) where
  abbrev pub answered : Option Text → Bool
  answered none = false
  answered (some out) = true

  -- git and gitEnv: the output without the blanks around it
  abbrev pub trimmed : Option Text → Option Text
  trimmed none = none
  trimmed (some out) = some (trim_space out)

  abbrev pub git_env : S.Repo → List Text → List Text → S.Repo × Option Text
  git_env r variables arguments =
      let (after, out) = S.git d r variables arguments in (after, trimmed out)

  abbrev says : Text → Option Text → Bool
  says word none = false
  says word (some out) = out == word

  -- IsRepo
  unfoldable pub is_repo : S.Repo → S.Repo × Bool
  is_repo r =
      let (after, out) = git_env r [] (codes "rev-parse" ∷ codes "--is-inside-work-tree" ∷ []) in
      (after, says (codes "true") out)

  -- Ignored
  unfoldable pub ignored : Text → S.Repo → S.Repo × Bool
  ignored path r =
      let (after, out) =
        git_env r [] (codes "check-ignore" ∷ codes "-q" ∷ codes "--" ∷ path ∷ []) in
      (after, answered out)

  abbrev says_something : Option Text → Bool
  says_something none = false
  says_something (some out) = not (trim_space out == [])

  -- InTree
  unfoldable pub in_tree : Text → Text → S.Repo → S.Repo × Bool
  in_tree branch rel r =
      let (after, out) =
        git_env r [] (codes "ls-tree" ∷ codes "--name-only" ∷ branch ∷ codes "--" ∷ rel ∷ []) in
      (after, says_something out)

  -- One command of a chain: its output goes on, its failure ends the chain.
  abbrev then_run :
      {A : Type 0}
      → S.Repo × Option Text
      → (S.Repo → Text → S.Repo × Result Failure A)
      → S.Repo × Result Failure A
  then_run (r, none) next = (r, err git_failed)
  then_run (r, some out) next = next r out

  abbrev pub verify : Text → List Text
  verify name = codes "rev-parse" ∷ codes "--verify" ∷ codes "-q" ∷ name ∷ []

  abbrev pub heads : Text
  heads = codes "refs/heads/"

  -- The loop for a free branch.
  unfoldable pub free_branch : ℕ → (ℕ → Text) → ℕ → S.Repo → S.Repo × Option Text
  unfolding candidate
  free_branch zero names i r = (r, none)
  free_branch (suc fuel) names i r =
      let (after, out) = git_env r [] (verify (heads ++ candidate names i)) in
      let more = free_branch fuel names (i + 1) after in
      if answered out then more else (after, some (candidate names i))

  abbrev point_at : Text → S.Repo × Option Text → S.Repo × Result Failure Text
  point_at commit (r, none) = (r, err still_searching)
  point_at commit (r, some branch) =
      then_run (git_env r [] (codes "update-ref" ∷ (heads ++ branch) ∷ commit ∷ []))
        (λ r out. (r, ok branch))

  -- The head commit, where there is one.
  abbrev parent_of : Option Text → Option Text
  parent_of none = none
  parent_of (some head) = if head == [] then none else some head

  abbrev with_parent : Option Text → List Text → List Text
  with_parent none arguments = arguments
  with_parent (some head) arguments = arguments ++ codes "-p" ∷ head ∷ []

  abbrev read_parent : List Text → Option Text → S.Repo → S.Repo × Option Text
  read_parent index none r = (r, some [])
  read_parent index (some head) r = git_env r index (codes "read-tree" ∷ codes "HEAD" ∷ [])

  abbrev identity : Bool → List Text
  identity true = []
  identity false =
      codes "GIT_AUTHOR_NAME=be-code"
      ∷ codes "GIT_AUTHOR_EMAIL=be-code@localhost"
      ∷ codes "GIT_COMMITTER_NAME=be-code"
      ∷ codes "GIT_COMMITTER_EMAIL=be-code@localhost"
      ∷ []

  -- From `git write-tree` on.
  abbrev commit_tree :
      ℕ → (ℕ → Text) → Text → List Text → Option Text → S.Repo → S.Repo × Result Failure Text
  commit_tree fuel names message index parent r =
      then_run (git_env r index (codes "write-tree" ∷ [])) (λ r tree.
        let (r, email) = git_env r [] (codes "config" ∷ codes "user.email" ∷ []) in
        then_run
          (git_env r (identity (answered email))
            (with_parent parent (codes "commit-tree" ∷ tree ∷ codes "-m" ∷ message ∷ [])))
          (λ r commit. point_at commit (free_branch fuel names 0 r)))

  -- SnapshotTo; `index` is the private index's path, if a temporary file could be made.
  unfoldable pub snapshot_to :
      ℕ → Option Text → (ℕ → Text) → Text → Text → S.Repo → S.Repo × Result Failure Text
  unfolding is_repo free_branch
  snapshot_to fuel index stamp prefix message r =
      let (r, inside) = is_repo r in if inside then go index r else (r, err not_repository)
    where
      go : Option Text → S.Repo → S.Repo × Result Failure Text
      go none r = (r, err no_private_index)
      go (some file) r =
          let variables = (codes "GIT_INDEX_FILE=" ++ file) ∷ [] in
          let (r, head) = git_env r [] (verify (codes "HEAD")) in
          let parent = parent_of head in
          then_run (read_parent variables parent r) (λ r out.
            then_run (git_env r variables (codes "add" ∷ codes "-A" ∷ codes "--" ∷ codes "." ∷ []))
              (λ r out. commit_tree fuel (λ i. prefix ++ stamp i) message variables parent r))
