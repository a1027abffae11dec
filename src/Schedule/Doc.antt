-- ===== src/Schedule/Doc.antt =====
-- internal/schedule/doc.go: the sections of schedules.md, and Put, Remove and Schedules on them.
mod Map
mod Putting
mod Removing
mod Tests
use be_code_redux.Base.{
  ℕ, List, [], ◌∷◌, Bool, true, false, ◌&&◌, Text, text_keyed, ◌==◌, if◌then◌else◌, Option, none,
  some,
}
use be_code_redux.Schedule.Spec.{State}
use be_code_redux.Schedule.Allow.{Grant}

-- Schedule; times and durations are numbers.
pub record Schedule : Type 0 where
  pub id : Text
  pub name : Text
  pub when : Text
  pub instruction : Text
  pub task : Text
  pub allow : List Grant
  pub state : State
  pub created_by : Text
  pub created : ℕ
  pub last_run : ℕ
  pub last_outcome : Text
  pub failures : ℕ
  pub ask_timeout : ℕ
  pub max_runtime : ℕ
  pub extra : List Text

-- A section that was read, or its text with the reason that it was not.
pub record Section : Type 0 where
  pub raw : Text
  pub sched : Option Schedule
  pub fault : Text

pub record Doc : Type 0 where
  pub preamble : Text
  pub sections : List Section

abbrev pub names : Text → Option Schedule → Bool
names id none = false
names id (some s) = s.id == id

-- The test of Put and Remove on a section.
abbrev pub is_section_of : Text → Section → Bool
is_section_of id x = names id x.sched

abbrev pub fresh : Schedule → Section
fresh s = record { raw = []; sched = some s; fault = [] }

unfoldable pub put_section : Schedule → List Section → List Section
put_section s [] = fresh s ∷ []
put_section s (x ∷ xs) =
    let rest = put_section s xs in
    if is_section_of s.id x then record x { sched = some s } ∷ xs else x ∷ rest

-- Put
unfoldable pub put : Schedule → Doc → Doc
unfolding put_section
put s d = record d { sections = put_section s d.sections }

unfoldable pub remove_section : Text → List Section → List Section × Bool
remove_section id [] = ([], false)
remove_section id (x ∷ xs) =
    let (rest, found) = remove_section id xs in
    if is_section_of id x then (xs, true) else (x ∷ rest, found)

-- Remove
unfoldable pub remove : Text → Doc → Doc × Bool
unfolding remove_section
remove id d =
    let (rest, found) = remove_section id d.sections in (record d { sections = rest }, found)

abbrev read_of : Option Schedule → List Schedule → List Schedule
read_of none ss = ss
read_of (some s) ss = s ∷ ss

abbrev pub read_sections : List Section → List Schedule
read_sections [] = []
read_sections (x ∷ xs) = read_of x.sched (read_sections xs)

-- Schedules
abbrev pub schedules : Doc → List Schedule
schedules d = read_sections d.sections
