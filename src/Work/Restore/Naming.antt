-- ===== src/Work/Restore/Naming.antt =====
-- Where a sidecar goes, and when the search for its name ends.
use be_code_redux.Base.{ℕ, zero, suc, ◌+◌, ◌<◌, ◌∷◌, ◌++◌, Bool, true, false, Text, codes, ◌≡◌, ◌≢◌}
use be_code_redux.Decimal.{itoa}
use be_code_redux.Files.{System, not_there, stat, found, read}
use be_code_redux.Work.Git.{candidate}
use be_code_redux.Work.Restore.{is_free}

-- The names in the order of the search: the first as it is, then with -2, -3 and so on.
abbrev pub numbered : (ℕ → Text) → ℕ → Text
numbered base zero = base 0
numbered base (suc k) = base (suc k) ++ b'-' ∷ itoa (k + 2)

module _ (S : System) (d : S.Disk) (base : ℕ → Text) (name : Text) where
  abbrev free_at : ℕ → Bool
  free_at i = is_free (stat S d (candidate base i))

  -- The name is the first candidate from `i` on that is free.
  abbrev IsFirst : ℕ → Type 0
  IsFirst i =
      (k : ℕ) × (candidate base (i + k) ≡ name)
      × (free_at (i + k) ≡ true)
      × ((j : ℕ) → j < k → free_at (i + j) ≡ false)

  -- The name is the first in the order of the search that the system says is not there.
  abbrev pub IsFirstMissing : Type 0
  IsFirstMissing =
      (k : ℕ) × (name ≡ numbered base k)
      × (stat S d name ≡ not_there)
      × ((j : ℕ) → j < k → stat S d (numbered base j) ≢ not_there)

module _ (S : System) (later keep : ℕ) (stamp : ℕ → Text) (path bytes : Text) (d : S.Disk)
    (holds : read S d path ≡ found bytes) (name : Text) where
  abbrev base : ℕ → Text
  base i = path ++ codes ".overwritten-" ++ stamp i
