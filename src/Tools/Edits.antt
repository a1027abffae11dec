-- ===== src/Tools/Edits.antt =====
-- internal/tools/fs.go: what edit_file makes of a file's text, and what it does once the edit is
-- approved, for a session with a work ledger and a checkpointer. The text replaced is not empty.
mod Once
mod Tests
use be_code_redux.Base.{
  ℕ, zero, suc, ◌+◌, ◌-◌, List, [], ◌∷◌, ◌++◌, Bool, true, false, Text, text_keyed, nat_keyed, ◌==◌,
  Option, none, some, if◌then◌else◌, Result, ok, err, has_prefix, length, drop,
}
use be_code_redux.Files.{System, Contents, found, gone, unreadable, read}
use be_code_redux.Checkpoint.{Checkpointer, record_file}
use be_code_redux.Work.Keep.{Setting}
use be_code_redux.Work.Ledger.{Ledger, Sources, has_changed}
use be_code_redux.Tools.Writes.{note_written}

-- Why the file was not edited.
pub data EditError : Type 0 where
  no_old_text : EditError
  cannot_read : EditError
  not_found : EditError
  many_places : ℕ → EditError
  no_checkpoint : EditError
  cannot_write : EditError

-- strings.Count of a text that is not empty; `skip` bytes of a match are still to pass.
unfoldable pub count_from : Text → ℕ → Text → ℕ
count_from old skip [] = 0
count_from old (suc skip) (c ∷ s) = count_from old skip s
count_from old zero (c ∷ s) =
    let here = suc (count_from old (length old - 1) s) in
    let later = count_from old 0 s in if has_prefix (c ∷ s) old then here else later

abbrev pub count : Text → Text → ℕ
count old s = count_from old 0 s

-- strings.Replace s old new 1
unfoldable pub replace_first : Text → Text → Text → Text
replace_first old new [] = []
replace_first old new (c ∷ s) =
    let later = c ∷ replace_first old new s in
    if has_prefix (c ∷ s) old then new ++ drop (length old) (c ∷ s) else later

abbrev pub if_once : Text → Text → Text → ℕ → Result EditError Text
if_once old new s zero = err not_found
if_once old new s (suc zero) = ok (replace_first old new s)
if_once old new s (suc (suc n)) = err (many_places (suc (suc n)))

-- The new text
unfoldable pub edited : Text → Text → Text → Result EditError Text
unfolding count_from replace_first
edited old new s = if old == [] then err no_old_text else if_once old new s (count old s)

module _ (S : System) where
  -- What edit_file hands back: the two states, the disk, and whether the file had changed since the
  -- session saw it, or why it was not edited.
  abbrev pub Outcome : Type 0
  Outcome = Ledger × Checkpointer × S.Disk × Result EditError Bool

  module _ (hash : Text → Text) (at : Setting) (post_write : S.Disk → S.Disk) (abs : Text)
      (src : Sources) where
    abbrev pub after_write : Text → Bool → Ledger → Checkpointer → S.Disk × Bool → Outcome
    after_write text moved l c (d, false) = (l, c, d, err cannot_write)
    after_write text moved l c (d, true) =
        (note_written S hash at abs text src l (post_write d), c, post_write d, ok moved)

    abbrev pub after_record : Text → Bool → Ledger → Checkpointer × S.Disk × Bool → Outcome
    after_record text moved l (c, d, false) = (l, c, d, err no_checkpoint)
    after_record text moved l (c, d, true) = after_write text moved l c (S.write d abs text 420)

    abbrev pub with_text : Ledger → Checkpointer → S.Disk → Result EditError Text → Outcome
    with_text l c d (err e) = (l, c, d, err e)
    with_text l c d (ok text) =
        after_record text (has_changed hash (read S d) abs l) l (record_file S abs c d)

    abbrev pub with_contents : Text → Text → Ledger → Checkpointer → S.Disk → Contents → Outcome
    with_contents old new l c d gone = (l, c, d, err cannot_read)
    with_contents old new l c d unreadable = (l, c, d, err cannot_read)
    with_contents old new l c d (found s) = with_text l c d (edited old new s)

    -- edit_file of the path `abs`
    unfoldable pub edit_file : Text → Text → Ledger → Checkpointer → S.Disk → Outcome
    unfolding edited record_file note_written has_changed
    edit_file [] new l c d = (l, c, d, err no_old_text)
    edit_file (x ∷ old) new l c d = with_contents (x ∷ old) new l c d (read S d abs)
