-- ===== src/Paths.antt =====
-- Slash-separated paths: strings.Split, strings.Join and strings.TrimSpace on code points, and the
-- lexical path.Clean, as the package internal/subagent uses them on a Unix
-- system (filepath.ToSlash is the identity there, and filepath.IsAbs tests for a leading slash).
pub mod Names
pub mod Under
use mathlib.Core.List.{foldl, reverse}
use be_code_redux.Base.{
  ℕ, zero, suc, List, [], ◌∷◌, ◌++◌, Bool, true, false, not, ◌&&◌, ◌||◌, Text, codes, leb, ◌==◌,
  nat_keyed, text_keyed, if◌then◌else◌, has_prefix,
}

abbrev pub slash : ℕ
slash = b'/'

abbrev pub dot : Text
dot = codes "."

abbrev pub dotdot : Text
dotdot = codes ".."

push_first : ℕ → List Text → List Text
push_first c [] = (c ∷ []) ∷ []
push_first c (w ∷ ws) = (c ∷ w) ∷ ws

-- strings.Split s sep, for a separator of one code point.
unfoldable pub split : ℕ → Text → List Text
unfolding push_first
split sep [] = [] ∷ []
split sep (c ∷ s) = let rest = split sep s in if c == sep then [] ∷ rest else push_first c rest

-- strings.Join ws sep
unfoldable pub join : ℕ → List Text → Text
join sep [] = []
join sep (w ∷ []) = w
join sep (w ∷ v ∷ ws) = w ++ sep ∷ join sep (v ∷ ws)

-- unicode.IsSpace
unfoldable pub is_space : ℕ → Bool
is_space c =
    (leb 9 c && leb c 13)
    || c == 32
    || c == 0x85
    || c == 0xA0
    || c == 0x1680
    || (leb 0x2000 c && leb c 0x200a)
    || c == 0x2028
    || c == 0x2029
    || c == 0x202f
    || c == 0x205f
    || c == 0x3000

unfoldable pub trim_left : Text → Text
unfolding is_space
trim_left [] = []
trim_left (c ∷ s) = let rest = trim_left s in if is_space c then rest else c ∷ s

-- strings.TrimSpace
unfoldable pub trim_space : Text → Text
unfolding trim_left
trim_space s = reverse (trim_left (reverse (trim_left s)))

-- strings.Fields; `seen` is the field that is being read.
unfoldable pub fields_from : Text → Text → List Text
unfolding is_space
fields_from seen [] = if seen == [] then [] else seen ∷ []
fields_from seen (c ∷ s) =
    let space = is_space c in
    let next = if space then [] else seen ++ c ∷ [] in
    let rest = fields_from next s in if space && not (seen == []) then seen ∷ rest else rest

unfoldable pub fields : Text → List Text
unfolding fields_from
fields s = fields_from [] s

-- filepath.IsAbs
abbrev pub is_abs : Text → Bool
is_abs [] = false
is_abs (c ∷ s) = c == slash

-- What path.Clean has kept of the elements read: how many `..` lead, and the names behind them,
-- the newest first.
pub record Kept : Type 0 where
  pub ups : ℕ
  pub names : List Text

-- An element `..` takes the last name away; with none left it counts, except at the root.
up : Bool → ℕ → List Text → Kept
up rooted n (w ∷ ws) = record { ups = n; names = ws }
up true n [] = record { ups = n; names = [] }
up false n [] = record { ups = suc n; names = [] }

unfoldable pub keep : Bool → Kept → Text → Kept
unfolding up
keep rooted k e =
    if e == [] || e == dot
    then k
    else if e == dotdot
    then up rooted k.ups k.names
    else record k { names = e ∷ k.names }

unfoldable pub kept : Bool → Text → Kept
unfolding keep split
kept rooted p = foldl (keep rooted) (record { ups = 0; names = [] }) (split slash p)

repeat_up : ℕ → List Text → List Text
repeat_up zero ns = ns
repeat_up (suc n) ns = dotdot ∷ repeat_up n ns

elements : Kept → List Text
unfolding repeat_up
elements k = repeat_up k.ups (reverse k.names)

finish : Bool → Text → Text
finish true body = slash ∷ body
finish false [] = dot
finish false (c ∷ body) = c ∷ body

-- path.Clean
unfoldable pub clean : Text → Text
unfolding kept elements finish join
clean p = let rooted = is_abs p in finish rooted (join slash (elements (kept rooted p)))

-- A cleaned relative path that leaves its directory.
unfoldable pub climbs : Text → Bool
climbs c = c == dotdot || has_prefix c (codes "../")
