-- ===== src/Checkpoint.antt =====
-- internal/checkpoint/checkpoint.go: the files that a turn changes, kept so that the turn can be
-- undone. `cur`, where there is one, is the newest turn; `earlier` holds the others, the newest first.
pub mod Saved
pub mod Recorded
pub mod Grown
pub mod Views
pub mod Undone
use be_code_redux.Base.{
  ℕ, zero, suc, ◌+◌, ◌%◌, List, [], ◌∷◌, ◌++◌, Bool, true, false, not, ◌&&◌, ◌||◌, Text, codes,
  text_keyed, nat_keyed, ◌==◌, Option, none, some, if◌then◌else◌, length, any, ltb, Assoc, lookup,
  insert, map,
}
use be_code_redux.Decimal.{itoa}
use be_code_redux.Files.{
  System, Stat, present, not_there, no_answer, stat, Contents, found, gone, unreadable, read,
  Removal, removed, missing, kept_back,
}
use be_code_redux.Work.Keep.{is_inside}

-- fileState
pub record FileState : Type 0 where
  pub existed : Bool
  pub backup : Text
  pub mode : ℕ

abbrev pub Files : Type 0
Files = Assoc Text FileState

pub record Turn : Type 0 where
  pub label : Text
  pub folder : Text
  pub files : Files
  pub order : List Text

pub record Checkpointer : Type 0 where
  pub root : Text
  pub base : Text
  pub earlier : List Turn
  pub cur : Option Turn

abbrev pub none_of : Files → Bool
none_of [] = true
none_of (f ∷ files) = false

abbrev pub is_empty : Turn → Bool
is_empty t = none_of t.files

-- The turns before a new one: an empty current turn is dropped.
abbrev pub kept_turns : List Turn → Option Turn → List Turn
kept_turns earlier none = earlier
kept_turns earlier (some t) = if is_empty t then earlier else t ∷ earlier

-- %03d
abbrev pub three_digits : ℕ → Text
three_digits n = (if ltb n 10 then codes "00" else if ltb n 100 then codes "0" else []) ++ itoa n

-- lastNonEmpty, with the turns that are newer and older than it
abbrev pub Place : Type 0
Place = List Turn × Turn × List Turn

unfoldable pub last_non_empty : List Turn → Option Place
last_non_empty [] = none
last_non_empty (t ∷ older) =
    let later = last_non_empty older in if is_empty t then behind t later else some ([], t, older)
  where
    behind : Turn → Option Place → Option Place
    behind t none = none
    behind t (some (newer, found_turn, older)) = some (t ∷ newer, found_turn, older)

-- All turns, the newest first.
abbrev pub turns : Checkpointer → List Turn
turns c = from_cur c.cur
  where
    from_cur : Option Turn → List Turn
    from_cur none = c.earlier
    from_cur (some t) = t ∷ c.earlier

module _ (S : System) where
  -- Where a new turn keeps its copies.
  abbrev pub new_folder : Text → Checkpointer → Text
  new_folder stamp c =
      S.joined c.base
        (codes "t" ++ three_digits (length (kept_turns c.earlier c.cur)) ++ codes "-" ++ stamp)

  -- BeginTurn at the time that `stamp` shows.
  unfoldable pub begin_turn : Text → Text → Checkpointer → Checkpointer
  begin_turn label stamp c = record c {
    earlier = kept_turns c.earlier c.cur;
    cur = some (record { label = label; folder = new_folder stamp c; files = []; order = [] });
  }

  -- What a step gives: the state, the disk and whether it went well.
  abbrev pub Step : Type 0
  Step = Files × List Text × S.Disk × Bool

  abbrev pub remembered : Text → FileState → Files → List Text → S.Disk → Step
  remembered rel st files order d = (insert rel st files, order ++ rel ∷ [], d, true)

  abbrev pub written : Text → FileState → Files → List Text → S.Disk × Bool → Step
  written rel st files order (d, false) = (files, order, d, false)
  written rel st files order (d, true) = remembered rel st files order d

  abbrev pub copied : Text → FileState → Files → List Text → S.Disk → Contents → Step
  copied rel st files order d gone = (files, order, d, false)
  copied rel st files order d unreadable = (files, order, d, false)
  copied rel st files order d (found bytes) =
      written rel st files order (S.write d st.backup bytes 384)

  abbrev pub backed_up : Text → Text → FileState → Files → List Text → S.Disk × Bool → Step
  backed_up abs rel st files order (d, false) = (files, order, d, false)
  backed_up abs rel st files order (d, true) = copied rel st files order d (read S d abs)

  -- From `os.Stat` on; an answer other than a file counts as no file.
  abbrev pub first_change : Text → Text → Text → Files → List Text → S.Disk → Stat → Step
  first_change abs folder rel files order d (present mode) =
      let path = S.joined folder rel in
      backed_up abs rel (record { existed = true; backup = path; mode = mode }) files order
        (S.make_folders d (S.folder_of path))
  first_change abs folder rel files order d not_there =
      remembered rel (record { existed = false; backup = []; mode = 0 }) files order d
  first_change abs folder rel files order d no_answer =
      remembered rel (record { existed = false; backup = []; mode = 0 }) files order d

  abbrev pub unless_done : Text → Text → Text → Files → List Text → S.Disk → Option FileState → Step
  unless_done abs folder rel files order d (some st) = (files, order, d, true)
  unless_done abs folder rel files order d none =
      first_change abs folder rel files order d (stat S d abs)

  abbrev pub if_tracked : Text → Text → Files → List Text → S.Disk → Bool → Option Text → Step
  if_tracked abs folder files order d tracked none = (files, order, d, true)
  if_tracked abs folder files order d false (some rel) = (files, order, d, true)
  if_tracked abs folder files order d true (some rel) =
      unless_done abs folder rel files order d (lookup rel files)

  -- Record in a turn
  unfoldable pub record_in : Text → Text → Turn → S.Disk → Step
  unfolding lookup insert
  record_in root abs t d =
      let rel = S.relative root abs in if_tracked abs t.folder t.files t.order d (is_inside rel) rel

  abbrev pub with_step : Checkpointer → Turn → Step → Checkpointer × S.Disk × Bool
  with_step c t (files, order, d, went_well) =
      (record c { cur = some (record t { files = files; order = order }) }, d, went_well)

  abbrev pub record_cur : Text → Checkpointer → S.Disk → Option Turn → Checkpointer × S.Disk × Bool
  record_cur abs c d none = (c, d, true)
  record_cur abs c d (some t) = with_step c t (record_in c.root abs t d)

  -- Record
  unfoldable pub record_file : Text → Checkpointer → S.Disk → Checkpointer × S.Disk × Bool
  unfolding record_in
  record_file abs c d = record_cur abs c d c.cur

  abbrev pub perm : ℕ → ℕ
  perm mode = if mode == 0 then 420 else mode % 512

  abbrev pub put_back : Text → ℕ → S.Disk → Contents → S.Disk × Bool
  put_back abs mode d gone = (d, false)
  put_back abs mode d unreadable = (d, false)
  put_back abs mode d (found bytes) = S.write d abs bytes (perm mode)

  abbrev pub taken_away : S.Disk × Removal → S.Disk × Bool
  taken_away (d, removed) = (d, true)
  taken_away (d, missing) = (d, true)
  taken_away (d, kept_back) = (d, false)

  -- One file of Undo
  abbrev pub restore_file : Text → FileState → S.Disk → S.Disk × Bool
  restore_file abs st d =
      if st.existed
      then put_back abs st.mode d (read S d st.backup)
      else taken_away (S.remove d abs)

  -- Undo's loop: the restored paths, and the first that could not be.
  abbrev pub Undone : Type 0
  Undone = S.Disk × List Text × Option Text

  abbrev pub noted : Text → List Text → Option Text → S.Disk × Bool → Undone
  noted rel restored failed (d, true) = (d, restored ++ rel ∷ [], failed)
  noted rel restored none (d, false) = (d, restored, some rel)
  noted rel restored (some first) (d, false) = (d, restored, some first)

  unfoldable pub undo_files : Text → Files → Undone → Undone
  undo_files root [] u = u
  undo_files root ((rel, st) ∷ walk) (d, restored, failed) =
      undo_files root walk (noted rel restored failed (restore_file (S.joined root rel) st d))

  -- The turns without the one that is undone; the current turn ends with it.
  abbrev pub without_turn : Checkpointer → Option Turn → Place → Checkpointer
  without_turn c none (newer, t, older) = record c { earlier = newer ++ older }
  without_turn c (some cur) ([], t, older) = record c { earlier = older; cur = none }
  without_turn c (some cur) (first ∷ newer, t, older) = record c {
    earlier = newer ++ older;
    cur = some cur;
  }

  -- Undo; `visit` is the order in which the map is read, and `none` is "nothing to undo".
  abbrev pub undo_turn : (Files → Files) → Checkpointer → S.Disk → Place → Checkpointer × Undone
  undo_turn visit c d (newer, t, older) =
      let (after, restored, failed) = undo_files c.root (visit t.files) (d, [], none) in
      (without_turn c c.cur (newer, t, older), (S.remove_tree after t.folder, restored, failed))

  abbrev pub undo_place :
      (Files → Files) → Checkpointer → S.Disk → Option Place → Option (Checkpointer × Undone)
  undo_place visit c d none = none
  undo_place visit c d (some place) = some (undo_turn visit c d place)

  unfoldable pub undo : (Files → Files) → Checkpointer → S.Disk → Option (Checkpointer × Undone)
  unfolding last_non_empty undo_files
  undo visit c d = undo_place visit c d (last_non_empty (turns c))
