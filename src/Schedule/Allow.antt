-- ===== src/Schedule/Allow.antt =====
-- internal/schedule/allow.go: what a fired event may do without asking. unicode.IsControl,
-- strings.ToLower and path.Match are parameters; paths have slashes, as on Unix.
mod Standing
mod Writing
mod Tests
use be_code_redux.Base.{
  ℕ, List, [], ◌∷◌, ◌++◌, Bool, true, false, not, ◌&&◌, ◌||◌, Text, codes, text_keyed, nat_keyed,
  ◌==◌, if◌then◌else◌, has_prefix, Option, none, some, Result, ok, err, ◌>>=◌, any, map,
}
use be_code_redux.Paths.{trim_space, clean, climbs, is_abs, slash, dot}
use be_code_redux.Schedule.Cron.{cut}

pub data GrantKind : Type 0 where
  shell write browser tool : GrantKind

pub record Grant : Type 0 where
  pub kind : GrantKind
  pub value : Text

abbrev pub kind_text : GrantKind → Text
kind_text shell = codes "shell"
kind_text write = codes "write"
kind_text browser = codes "browser"
kind_text tool = codes "tool"

-- Grant.String
unfoldable pub grant_text : Grant → Text
grant_text g = kind_text g.kind ++ (codes ": " ++ g.value)

pub data GrantError : Type 0 where
  many_lines no_value : Text → GrantError
  every_command outside_workspace every_site every_tool bad_pattern unknown_kind : Text → GrantError

-- strings.Trim of a text by these characters leaves nothing.
abbrev pub only : Text → Text → Bool
only chars s = not (any (λ c. not (any (λ d. d == c) chars)) s)

-- The path of a write grant leaves the workspace.
abbrev pub leaves : Text → Bool
leaves v = is_abs v || is_abs (clean v) || climbs (clean v)

-- The error, and the answer, of path.Match.
abbrev pub is_bad : Option Bool → Bool
is_bad none = true
is_bad (some b) = false

abbrev pub is_match : Option Bool → Bool
is_match none = false
is_match (some b) = b

module _ (is_control : ℕ → Bool) (lower : Text → Text)
    (path_match : Text → Text → Option Bool) where
  -- The switch on the kind.
  unfoldable pub parse_kind : Text → Text → Result GrantError Grant
  unfolding clean climbs
  parse_kind k v =
      if k == codes "shell"
      then if only (codes "* ") v
        then err (every_command v)
        else ok (record { kind = shell; value = v })
      else if k == codes "write"
      then if leaves v
        then err (outside_workspace v)
        else ok (record { kind = write; value = clean v })
      else if k == codes "browser"
      then if only (codes "*. ") (lower v)
        then err (every_site (lower v))
        else ok (record { kind = browser; value = lower v })
      else if k == codes "tool"
      then if only (codes "*? ") v
        then err (every_tool v)
        else if is_bad (path_match v [])
        then err (bad_pattern v)
        else ok (record { kind = tool; value = v })
      else err (unknown_kind k)

  -- ParseGrant
  unfoldable pub parse_grant : Text → Result GrantError Grant
  unfolding cut trim_space parse_kind
  parse_grant s =
      let (k, v, found) = cut b':' s in
      if any is_control s
      then err (many_lines s)
      else if not found || (trim_space v == [])
      then err (no_value s)
      else parse_kind (lower (trim_space k)) (trim_space v)

  abbrev pub is_blank : Text → Bool
  is_blank l = trim_space l == []

  abbrev pub cons_grant : Grant → List Grant → Result GrantError (List Grant)
  cons_grant g a = ok (g ∷ a)

  -- ParseAllowance
  unfoldable pub parse_allowance : List Text → Result GrantError (List Grant)
  unfolding parse_grant trim_space
  parse_allowance [] = ok []
  parse_allowance (l ∷ ls) =
      let rest = parse_allowance ls in
      if is_blank l then rest else parse_grant l >>= (λ g. rest >>= cons_grant g)

  abbrev pub stand :
      Text
      → Result GrantError Grant
      → List Grant × List (Text × GrantError)
      → List Grant × List (Text × GrantError)
  stand l (ok g) (a, errs) = (g ∷ a, errs)
  stand l (err e) (a, errs) = (a, (l, e) ∷ errs)

  -- ParseStanding
  unfoldable pub parse_standing : List Text → List Grant × List (Text × GrantError)
  unfolding parse_grant trim_space
  parse_standing [] = ([], [])
  parse_standing (l ∷ ls) =
      let rest = parse_standing ls in if is_blank l then rest else stand l (parse_grant l) rest

  abbrev pub kind_is : GrantKind → GrantKind → Bool
  kind_is k j = kind_text k == kind_text j

  -- Values
  unfoldable pub values : GrantKind → List Grant → List Text
  values k [] = []
  values k (g ∷ a) = let rest = values k a in if kind_is g.kind k then g.value ∷ rest else rest

  -- The rule of one write grant on a cleaned path.
  abbrev pub write_covers : Text → Text → Bool
  write_covers rel p = p == dot || rel == p || has_prefix rel (p ++ slash ∷ [])

  -- WriteAllowed
  unfoldable pub write_allowed : List Grant → Text → Bool
  unfolding values clean
  write_allowed a rel = any (write_covers (clean rel)) (values write a)

  abbrev pub matches : Text → Text → Bool
  matches name p = is_match (path_match p name) || p == name

  -- HostAllowed
  unfoldable pub host_allowed : List Grant → Text → Bool
  unfolding values
  host_allowed a host =
      if lower host == [] then false else any (matches (lower host)) (values browser a)

  -- ToolAllowed
  unfoldable pub tool_allowed : List Grant → Text → Bool
  unfolding values
  tool_allowed a name = if name == [] then false else any (matches name) (values tool a)

  -- Broad
  unfoldable pub broad : List Grant → Bool
  unfolding values
  broad a = any (λ p. p == dot) (values write a)
