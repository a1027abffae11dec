-- ===== src/Subagent/Scope.antt =====
-- internal/subagent/scope.go: the path scopes of co-workers. A text is the list of its code
-- points; an error value is a constructor with the values that its sentence shows.
pub mod Cleaning
pub mod Covering
pub mod Sharing
use be_code_redux.Base.{
  List, [], ◌∷◌, ◌++◌, Bool, true, false, ◌&&◌, ◌||◌, Text, codes, ◌==◌, nat_keyed, text_keyed,
  if◌then◌else◌, has_prefix, any, all, Result, ok, err, ◌>>=◌,
}
use be_code_redux.Paths.{slash, dot, trim_space, is_abs, clean, climbs}

pub data ScopeError : Type 0 where
  empty_entry no_scope : ScopeError
  double_space absolute escapes job_escapes : Text → ScopeError

-- strings.Contains(s, "  ")
has_double_space : Text → Bool
has_double_space [] = false
has_double_space (c ∷ s) = has_prefix (c ∷ s) (codes "  ") || has_double_space s

-- One round of the loop of CleanScope.
unfoldable pub clean_entry : Text → Result ScopeError Text
unfolding has_double_space
clean_entry p =
    let s = trim_space p in
    let c = clean s in
    if s == []
    then err empty_entry
    else if has_double_space s
    then err (double_space s)
    else if is_abs s
    then err (absolute s)
    else if c == dot || climbs c
    then err (escapes s)
    else ok c

-- CleanScope
unfoldable pub clean_scope : List Text → Result ScopeError (List Text)
unfolding clean_entry
clean_scope [] = ok []
clean_scope (p ∷ ps) = do c ← clean_entry p; out ← clean_scope ps; ok (c ∷ out)

-- The variables of the loop of CleanJobScope.
pub record JobEntries : Type 0 where
  pub whole : Bool
  pub out : List Text

-- One round of that loop.
unfoldable pub job_entry : JobEntries → Text → Result ScopeError JobEntries
job_entry acc p =
    let s = trim_space p in
    let c = clean s in
    if s == []
    then ok acc
    else if is_abs s
    then err (job_escapes s)
    else if climbs c
    then err (job_escapes s)
    else if c == dot
    then ok (record acc { whole = true })
    else (do entry ← clean_scope (s ∷ []); ok (record acc { out = acc.out ++ entry }))

unfoldable pub job_entries : JobEntries → List Text → Result ScopeError JobEntries
unfolding job_entry
job_entries acc [] = ok acc
job_entries acc (p ∷ ps) = do acc' ← job_entry acc p; job_entries acc' ps

job_scope : JobEntries → Result ScopeError (List Text)
job_scope r =
    if r.whole then ok (dot ∷ []) else elim r.out [ [] ↦ err no_scope | w ∷ ws ↦ ok (w ∷ ws) ]

-- CleanJobScope
unfoldable pub clean_job_scope : List Text → Result ScopeError (List Text)
unfolding job_entries job_scope
clean_job_scope ps = do r ← job_entries (record { whole = false; out = [] }) ps; job_scope r

-- The test of the loop of InScope: `rel` is the cleaned path.
unfoldable pub entry_covers : Text → Text → Bool
entry_covers rel s = s == dot || (rel == s || has_prefix rel (s ++ slash ∷ []))

-- InScope
unfoldable pub in_scope : List Text → Text → Bool
unfolding entry_covers
in_scope scope rel = any (entry_covers (clean rel)) scope

-- Within
unfoldable pub within : List Text → List Text → Bool
unfolding in_scope
within scope [] = true
within scope (m ∷ ms) = all (in_scope (m ∷ ms)) scope

-- Overlap
unfoldable pub overlap : List Text → List Text → Bool
unfolding in_scope
overlap a b = any (in_scope b) a || any (in_scope a) b
