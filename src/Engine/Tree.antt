-- ===== src/Engine/Tree.antt =====
-- internal/engine/node.go: the task tree. A *Node is the place of a node in the walk of its tree,
-- parents before children. Times are numbers, 0 the zero time; a node's evidence is left out.
pub mod Ids
pub mod Placed
pub mod Grown
pub mod Numbered
mod Removed
mod Tests
use be_code_redux.Base.{
  ℕ, zero, suc, ◌+◌, ◌-◌, ◌^◌, max, List, [], ◌∷◌, ◌++◌, Bool, true, false, not, ◌&&◌, ◌||◌, Text,
  codes, text_keyed, nat_keyed, ◌==◌, if◌then◌else◌, ltb, has_prefix, Option, none, some, length,
  get_elem?, set,
}
use be_code_redux.Paths.{split, join, fields, trim_space}
use be_code_redux.Decimal.{ℤ, pos, negsuc, atoi, int_text}

pub data Status : Type 0 where
  todo doing done blocked dropped : Status

-- terminal
abbrev pub is_terminal : Status → Bool
is_terminal todo = false
is_terminal doing = false
is_terminal done = true
is_terminal blocked = true
is_terminal dropped = true

abbrev pub is_doing : Status → Bool
is_doing doing = true
is_doing todo = false
is_doing done = false
is_doing blocked = false
is_doing dropped = false

pub record NodeInfo : Type 0 where
  pub id : Text
  pub text : Text
  pub status : Status
  pub reason : Text
  pub opened : ℕ
  pub closed : ℕ
  pub started : ℕ
  pub calls : ℕ
  pub owner : Text
  pub owner_pinned : Bool
  pub scope : List Text
  pub after : List Text
  pub job : Bool
  pub done_by : Text

-- A node, its children, and the siblings behind it.
pub data Nodes : Type 0 where
  nil : Nodes
  branch : NodeInfo → Nodes → Nodes → Nodes

-- The nodes in the order of Walk.
unfoldable pub walk : Nodes → List NodeInfo
walk nil = []
walk (branch n children rest) = n ∷ (walk children ++ walk rest)

-- A generation without what is below it.
unfoldable pub generation : Nodes → List NodeInfo
generation nil = []
generation (branch n children rest) = n ∷ generation rest

pub record Tree : Type 0 where
  pub roots : Nodes
  pub dispatched : List Text

abbrev pub dot : ℕ
dot = b'.'

-- What stands behind the last dot, or all of it; `seen` is what was read since the last one.
unfoldable pub last_part : Text → Text → Text
last_part seen [] = seen
last_part seen (c ∷ s) = let next = if c == dot then [] else seen ++ c ∷ [] in last_part next s

abbrev pub nonneg : ℤ → ℕ
nonneg (pos n) = n
nonneg (negsuc n) = 0

-- The index in an id; one below 0 never raises the maximum that it is compared with.
unfoldable pub index_of : Text → ℕ
unfolding last_part
index_of id = nonneg (atoi (last_part [] id)).0

unfoldable pub max_index : List NodeInfo → ℕ
unfolding index_of
max_index [] = 0
max_index (n ∷ ns) = max (index_of n.id) (max_index ns)

-- nextIndex, as Itoa writes it
unfoldable pub next_text : List NodeInfo → Text
unfolding max_index
next_text ns = int_text (max_index ns + 1)

-- oneSpaced
unfoldable pub one_spaced : Text → Text
one_spaced s = join b' ' (fields s)

-- Find: the place of the last node in the walk with this id.
unfoldable pub find : Text → List NodeInfo → Option ℕ
find id [] = none
find id (n ∷ ns) = elim (find id ns) [
  | some i ↦ some (suc i)
  | none ↦ if n.id == id then some 0 else none
]

abbrev pub new_node : Text → Text → ℕ → NodeInfo
new_node id text opened = record {
  id = id;
  text = text;
  status = todo;
  reason = [];
  opened = opened;
  closed = 0;
  started = 0;
  calls = 0;
  owner = [];
  owner_pinned = false;
  scope = [];
  after = [];
  job = false;
  done_by = [];
}

unfoldable pub append_node : Nodes → NodeInfo → Nodes
append_node nil x = branch x nil nil
append_node (branch n children rest) x = branch n children (append_node rest x)

-- The node at a place gets a child behind its others, with the next index under its own id.
unfoldable pub add_child : ℕ → Text → ℕ → Nodes → Nodes
unfolding walk generation next_text append_node
add_child i text now nil = nil
add_child zero text now (branch n children rest) =
    branch n
      (append_node children (new_node (n.id ++ dot ∷ next_text (generation children)) text now))
      rest
add_child (suc i) text now (branch n children rest) =
    let below = add_child i text now children in
    let beside = add_child (i - length (walk children)) text now rest in
    if ltb i (length (walk children)) then branch n below rest else branch n children beside

-- The node that Add files under; an unknown parent counts as none.
unfoldable pub parent_place : Nodes → Text → Option ℕ
unfolding find walk
parent_place f parent = if parent == [] then none else find parent (walk f)

unfoldable pub add_under : Option ℕ → Text → ℕ → Nodes → Nodes
unfolding add_child append_node next_text
add_under (some i) text now f = add_child i text now f
add_under none text now f = append_node f (new_node (next_text (generation f)) text now)

-- Add: a child of the node with the id `parent`, or a root where there is none.
unfoldable pub add : Tree → Text → Text → ℕ → Tree
unfolding one_spaced parent_place add_under
add t parent text now = record t {
  roots = add_under (parent_place t.roots parent) (one_spaced text) now t.roots;
}

-- Remove: the node at a place, with all below it; a place outside the tree changes nothing.
unfoldable pub remove_at : ℕ → Nodes → Nodes
unfolding walk
remove_at i nil = nil
remove_at zero (branch n children rest) = rest
remove_at (suc i) (branch n children rest) =
    let below = remove_at i children in
    let beside = remove_at (i - length (walk children)) rest in
    if ltb i (length (walk children)) then branch n below rest else branch n children beside
