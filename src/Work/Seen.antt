-- ===== src/Work/Seen.antt =====
-- internal/workledger/seen.go and run.go: the hashes of the files that a session, or one run of a
-- sub-agent, has seen, and which of them have changed. SHA-256 is the parameter `hash`, and what
-- a file holds is read through the parameter `read`.
pub mod Drift
pub mod Listed
use be_code_redux.Base.{
  List, [], ◌∷◌, Bool, true, false, not, Text, text_keyed, ◌==◌, Option, none, some, if◌then◌else◌,
  Assoc, lookup, insert, erase, has_prefix, codes,
}
use be_code_redux.Files.{Contents, found, gone, unreadable}

-- Seen, and the map of a Run
abbrev pub Seen : Type 0
Seen = Assoc Text Text

-- What Changed returns: no change, a change and what the file holds now, or that it cannot be read.
pub data Change : Type 0 where
  unchanged : Change
  changed_to : Option Text → Change
  unread : Change

module _ (hash : Text → Text) where
  -- Seen.NoteHash
  abbrev pub note_hash : Text → Text → Seen → Seen
  note_hash file h seen = insert file h seen

  -- Seen.Note
  abbrev pub note : Text → Text → Seen → Seen
  note file content seen = note_hash file (hash content) seen

  abbrev pub compared : Text → Contents → Change
  compared was gone = changed_to none
  compared was unreadable = unread
  compared was (found b) = if hash b == was then unchanged else changed_to (some b)

  abbrev pub changed_from : Option Text → Contents → Change
  changed_from none now = unchanged
  changed_from (some was) now = compared was now

  -- Seen.Changed
  unfoldable pub changed : (Text → Contents) → Text → Seen → Change
  unfolding lookup
  changed read file seen = changed_from (lookup file seen) (read file)

  -- Run.Read: the first content counts.
  abbrev pub kept_first : Text → Text → Seen → Option Text → Seen
  kept_first path content seen none = insert path (hash content) seen
  kept_first path content seen (some was) = seen

  unfoldable pub run_read : Text → Text → Seen → Seen
  unfolding lookup insert
  run_read path content seen = kept_first path content seen (lookup path seen)

  -- Run.Wrote
  unfoldable pub run_wrote : Text → Seen → Seen
  unfolding erase
  run_wrote path seen = erase path seen

  abbrev pub moved : Text → Contents → Bool
  moved was gone = true
  moved was unreadable = false
  moved was (found b) = not (hash b == was)

  -- Run.Drifted before the names are made relative and sorted
  unfoldable pub drifted : (Text → Contents) → Seen → List Text
  drifted read [] = []
  drifted read ((path, was) ∷ seen) =
      let rest = drifted read seen in if moved was (read path) then path ∷ rest else rest

-- The name that Drifted, OnWrote and Detail give a file.
abbrev pub shown_from : Text → Option Text → Text
shown_from path none = path
shown_from path (some rel) = if has_prefix rel (codes "..") then path else rel

abbrev pub shown : (Text → Text → Option Text) → Text → Text → Text
shown relative workspace path = shown_from path (relative workspace path)
