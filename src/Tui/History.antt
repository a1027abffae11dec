-- ===== src/Tui/History.antt =====
-- internal/tui/history.go: the lines that a shared session recalls, and each terminal's place in
-- them. Reading and writing the file are not modelled.
pub mod Recall
mod Tests
use be_code_redux.Base.{
  ℕ, zero, suc, ◌+◌, ◌-◌, ◌≤◌, ◌<◌, List, [], ◌∷◌, ◌++◌, Bool, true, false, not, ◌&&◌, ◌||◌, Text,
  text_keyed, nat_keyed, ◌==◌, if◌then◌else◌, ltb, leb, Option, none, some, Assoc, lookup, insert,
  erase, get_elem?, length, drop,
}
use be_code_redux.Paths.{split, trim_space}

pub record InputHistory : Type 0 where
  pub lines : List Text
  pub cursors : Assoc ℕ ℕ
  pub dirty : Bool

abbrev pub history_limit : ℕ
history_limit = 2000

-- The lines that loadInputHistory keeps of a file's text; 10 is the line feed.
unfoldable pub load_lines : List Text → List Text
load_lines [] = []
load_lines (l ∷ ls) = let rest = load_lines ls in if trim_space l == [] then rest else l ∷ rest

unfoldable pub load_history : Text → InputHistory
unfolding load_lines
load_history text = record { lines = load_lines (split 10 text); cursors = []; dirty = false }

-- cursor: a client that is not navigating, or whose place is gone, is at the end.
unfoldable pub cursor : InputHistory → ℕ → ℕ
cursor h client = elim (lookup client h.cursors) [
  | none ↦ length h.lines
  | some pos ↦ if ltb (length h.lines) pos then length h.lines else pos
]

abbrev pub set_cursor : InputHistory → ℕ → ℕ → InputHistory
set_cursor h client pos = record h { cursors = insert client pos h.cursors }

abbrev pub live : InputHistory → ℕ → InputHistory
live h client = record h { cursors = erase client h.cursors }

-- drop
abbrev pub drop_client : InputHistory → ℕ → InputHistory
drop_client h client = record h { cursors = erase client h.cursors }

abbrev pub last_is : List Text → Text → Bool
last_is lines line = elim (get_elem? lines (length lines - 1)) [ none ↦ false | some l ↦ l == line ]

-- The part of add that stores the line.
unfoldable pub stored : InputHistory → Text → InputHistory
stored h line =
    let grown = h.lines ++ line ∷ [] in
    let trimmed =
      if ltb history_limit (length grown)
      then drop (length grown - history_limit) grown
      else grown in
    if not (line == []) && not (ltb 0 (length h.lines) && last_is h.lines line)
    then record h { lines = trimmed; dirty = true }
    else h

unfoldable pub add : InputHistory → Text → ℕ → InputHistory
unfolding stored
add h line client = live (stored h line) client

-- What prev and next return: a line, the empty line of live input, nothing, or the panic of an
-- index that is out of range.
pub data Recalled : Type 0 where
  line : Text → Recalled
  live_input nothing out_of_range : Recalled

abbrev pub line_at : InputHistory → ℕ → Recalled
line_at h pos = elim (get_elem? h.lines pos) [ some l ↦ line l | none ↦ out_of_range ]

unfoldable pub prev : InputHistory → ℕ → InputHistory × Recalled
unfolding cursor
prev h client =
    let pos = cursor h client in
    if (pos == 0) || (length h.lines == 0)
    then (h, nothing)
    else (set_cursor h client (pos - 1), line_at h (pos - 1))

unfoldable pub next : InputHistory → ℕ → InputHistory × Recalled
unfolding cursor
next h client =
    let pos = cursor h client in
    if leb (length h.lines) pos
    then (h, nothing)
    else if pos + 1 == length h.lines
    then (live h client, live_input)
    else (set_cursor h client (pos + 1), line_at h (pos + 1))
