-- ===== src/Checkpoint/Grown.antt =====
-- How Record changes the files of a turn.
use be_code_redux.Base.{
  List, Bool, true, false, Text, text_keyed, Option, none, some, lookup, insert, inl, inr, ◌⊎◌, ◌≡◌,
  refl,
}
use be_code_redux.Files.{
  System, Stat, present, not_there, no_answer, stat, Contents, found, gone, unreadable, read,
}
use be_code_redux.Checkpoint.{
  FileState, Files, Step, written, copied, backed_up, first_change, unless_done, if_tracked,
}

-- Record leaves the files as they are, or adds a state for the one named.
module _ (S : System) (abs folder r : Text) (files : Files) (order : List Text) where
  abbrev pub IsOneMore : Step S → Type 0
  IsOneMore (after, rels, d, well) =
      (after ≡ files) ⊎ ((st : FileState) × (after ≡ insert r st files))

  written-IsOneMore :
      (st : FileState) (w : S.Disk × Bool) → IsOneMore (written S r st files order w)
  written-IsOneMore st (d, false) = inl refl
  written-IsOneMore st (d, true) = inr (st, refl)

  copied-IsOneMore :
      (st : FileState) (d : S.Disk) (c : Contents) → IsOneMore (copied S r st files order d c)
  copied-IsOneMore st d gone = inl refl
  copied-IsOneMore st d unreadable = inl refl
  copied-IsOneMore st d (found b) = written-IsOneMore st (S.write d st.backup b 384)

  backed_up-IsOneMore :
      (st : FileState) (w : S.Disk × Bool) → IsOneMore (backed_up S abs r st files order w)
  backed_up-IsOneMore st (d, false) = inl refl
  backed_up-IsOneMore st (d, true) = copied-IsOneMore st d (read S d abs)

  first_change-IsOneMore :
      (d : S.Disk) (s : Stat) → IsOneMore (first_change S abs folder r files order d s)
  first_change-IsOneMore d (present mode) = backed_up-IsOneMore _ (S.make_folders d _)
  first_change-IsOneMore d not_there = inr (_, refl)
  first_change-IsOneMore d no_answer = inr (_, refl)

  unless_done-IsOneMore :
      (d : S.Disk) (o : Option FileState) → IsOneMore (unless_done S abs folder r files order d o)
  unless_done-IsOneMore d none = first_change-IsOneMore d (stat S d abs)
  unless_done-IsOneMore d (some st) = inl refl

  pub if_tracked-IsOneMore :
      (d : S.Disk) (tracked : Bool)
      → IsOneMore (if_tracked S abs folder files order d tracked (some r))
  if_tracked-IsOneMore d false = inl refl
  if_tracked-IsOneMore d true = unless_done-IsOneMore d (lookup r files)
