-- ===== src/Agent/Repeat.antt =====
-- internal/agent/repeat.go: the tracker of calls made again with the same result. SHA-256 and the
-- canonical form of a call's JSON arguments are parameters; a footer is the count that it names.
mod Counting
mod Tests
use be_code_redux.Base.{
  ℕ, zero, suc, ◌+◌, List, [], ◌∷◌, ◌++◌, Bool, true, false, Text, codes, text_keyed, nat_keyed,
  ◌==◌, if◌then◌else◌, ltb, leb, Option, none, some, length, any, Assoc, lookup, insert,
}

-- repeatEntry
pub record Entry : Type 0 where
  pub result : Text
  pub times : ℕ

-- repeatTracker
abbrev pub Tracker : Type 0
Tracker = Assoc Text Entry

abbrev pub repeat_cap : ℕ
repeat_cap = 256

abbrev pub repeat_from : ℕ
repeat_from = 3

-- repeatExempt
abbrev pub is_exempt : Text → Bool
is_exempt name = any (λ e. e == name) (codes "task" ∷ codes "consult" ∷ codes "process" ∷ [])

abbrev pub footer : ℕ → Option ℕ
footer n = if ltb n repeat_from then none else some n

unfoldable pub counted : Text → Text → Tracker → Option Entry → Tracker × Option ℕ
unfolding insert
counted key sum seen none = (insert key (record { result = sum; times = 1 }) seen, none)
counted key sum seen (some e) =
    if e.result == sum
    then (insert key (record { result = sum; times = e.times + 1 }) seen, footer (e.times + 1))
    else (insert key (record { result = sum; times = 1 }) seen, none)

-- A full map starts afresh.
abbrev pub bounded : Tracker → Tracker
bounded seen = if leb repeat_cap (length seen) then [] else seen

module _ (canonical_args : Text → Text) (hash : Text → Text) where
  abbrev pub key_of : Text → Text → Text
  key_of name args = name ++ 0 ∷ canonical_args args

  -- note
  unfoldable pub note : Text → Text → Text → Tracker → Tracker × Option ℕ
  unfolding lookup counted
  note name args content seen =
      let key = key_of name args in
      if is_exempt name
      then (seen, none)
      else counted key (hash content) (bounded seen) (lookup key (bounded seen))
