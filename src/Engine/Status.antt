-- ===== src/Engine/Status.antt =====
-- internal/engine/node.go: the pens of dispatched subtrees, the node that each is doing, and
-- SetStatus. A change of a node is a write at its place in the walk.
pub mod Pens
pub mod Counts
pub mod Names
pub mod Demotions
pub mod Exclusive
mod Tests
use mathlib.Core.List.{foldl}
use be_code_redux.Base.{
  ℕ, zero, suc, ◌+◌, ◌-◌, ◌≤◌, ◌<◌, List, [], ◌∷◌, ◌++◌, Bool, true, false, not, ◌&&◌, ◌||◌, Text,
  text_keyed, nat_keyed, ◌==◌, if◌then◌else◌, ltb, has_prefix, Option, none, some, length,
  get_elem?, set, take, ◌≡◌, ◌≢◌, refl, sym, ap, ◌∙◌, subst, arith, All, All-map, In, All-In, ◌⊎◌,
  inl, inr, Bool-cases, Option-cases, eq_of_beq, beq_self, total, total-set, at-total,
  get_elem?-set_self, some-injective, map, length-append,
}
use be_code_redux.Paths.{split, join, trim_space}
use be_code_redux.Engine.Tree.{
  Status, todo, doing, is_terminal, is_doing, NodeInfo, Nodes, nil, branch, walk, Tree, dot, find,
}

-- `id` is `root` or below it.
abbrev pub in_subtree : Text → Text → Bool
in_subtree id root = id == root || has_prefix id (root ++ dot ∷ [])

unfoldable pub without : Text → List Text → List Text
without x [] = []
without x (y ∷ ys) = let rest = without x ys in if y == x then rest else y ∷ rest

-- SetDispatched
unfoldable pub set_dispatched : Tree → Text → Bool → Tree
unfolding without
set_dispatched t root on =
    let others = without root t.dispatched in
    record t { dispatched = if on then root ∷ others else others }

-- One round of penOf's loop.
abbrev pub inner_pen : Text → Text → Text → Text
inner_pen id best r = if in_subtree id r && ltb (length best) (length r) then r else best

-- penOf; the longest root wins, so the order of the roots is no matter.
unfoldable pub pen_of : List Text → Text → Text
pen_of dispatched id = foldl (inner_pen id) [] dispatched

-- The first place in the walk that a test accepts.
unfoldable pub first_where : (NodeInfo → Bool) → List NodeInfo → Option ℕ
first_where p [] = none
first_where p (n ∷ ns) =
    let later = first_where p ns in
    if p n then some 0 else elim later [ none ↦ none | some i ↦ some (suc i) ]

abbrev pub doing_in : Text → NodeInfo → Bool
doing_in root n = is_doing n.status && in_subtree n.id root

-- DoingUnder
unfoldable pub doing_under : Text → List NodeInfo → Option ℕ
unfolding first_where
doing_under root ns = first_where (doing_in root) ns

abbrev pub owner_at : List NodeInfo → Option ℕ → Text
owner_at ns none = []
owner_at ns (some i) = elim (get_elem? ns i) [ none ↦ [] | some n ↦ n.owner ]

-- The owner of the node with this id, or nothing.
unfoldable pub own_owner : List NodeInfo → Text → Text
unfolding find
own_owner ns id = owner_at ns (find id ns)

-- The loop of OwnerOf, from the whole id up to its first part.
unfoldable pub owner_up : List NodeInfo → List Text → ℕ → Text
unfolding own_owner
owner_up ns parts zero = []
owner_up ns parts (suc i) =
    let above = owner_up ns parts i in
    let own = own_owner ns (join dot (take (suc i) parts)) in if own == [] then above else own

-- OwnerOf
unfoldable pub owner_of : List NodeInfo → Text → Text
unfolding owner_up
owner_of ns id = let parts = split dot id in owner_up ns parts (length parts)

abbrev pub doing_main : List Text → List NodeInfo → NodeInfo → Bool
doing_main dispatched ns n =
    is_doing n.status && ((pen_of dispatched n.id == []) && (owner_of ns n.id == []))

-- Doing
unfoldable pub doing_node : Tree → Option ℕ
unfolding first_where pen_of owner_of
doing_node t = first_where (doing_main t.dispatched (walk t.roots)) (walk t.roots)

-- A write to the node at a place in the walk.
unfoldable pub put : ℕ → NodeInfo → Nodes → Nodes
unfolding walk
put i x nil = nil
put zero x (branch n children rest) = branch x children rest
put (suc i) x (branch n children rest) =
    let below = put i x children in
    let beside = put (i - length (walk children)) x rest in
    if ltb i (length (walk children)) then branch n below rest else branch n children beside

-- The doing node that a new one in the pen of `id` replaces.
unfoldable pub previous : Tree → Text → Option ℕ
unfolding pen_of doing_under doing_node
previous t id =
    let pen = pen_of t.dispatched id in
    if pen == [] then doing_node t else doing_under pen (walk t.roots)

abbrev pub demoted : NodeInfo → NodeInfo
demoted n = record n { status = todo }

-- The previous doing node goes back to todo, unless it is the node at `i` itself.
unfoldable pub demote : Option ℕ → ℕ → Nodes → Nodes
unfolding put
demote none i f = f
demote (some j) i f =
    if j == i then f else elim (get_elem? (walk f) j) [ none ↦ f | some n ↦ put j (demoted n) f ]

-- What SetStatus writes into the node itself; `closer` is the owner of the pen around it, where
-- there is one.
unfoldable pub stamped : NodeInfo → Status → Text → ℕ → Option Text → NodeInfo
stamped n s reason now closer =
    let started = if is_doing s && (n.started == 0) then now else n.started in
    let closed = if is_terminal s then if n.closed == 0 then now else n.closed else 0 in
    let by = if is_terminal s then elim closer [ none ↦ n.done_by | some o ↦ o ] else [] in
    record n {
      started = started;
      closed = closed;
      status = s;
      done_by = by;
      reason = if reason == [] then n.reason else trim_space reason;
    }

-- The owner of the dispatched root around `id`.
unfoldable pub closer : Tree → Text → Option Text
unfolding pen_of find
closer t id =
    let pen = pen_of t.dispatched id in
    let ns = walk t.roots in
    if pen == [] then none else elim (find pen ns) [
      | none ↦ none
      | some i ↦ elim (get_elem? ns i) [ none ↦ none | some p ↦ some p.owner ]
    ]

-- The tree with the changed node written at its place, for what stands there.
unfoldable pub written_at : Tree → ℕ → Text → Status → Text → ℕ → Nodes → Option NodeInfo → Tree
unfolding stamped closer put
written_at t i id s reason now roots none = t
written_at t i id s reason now roots (some n) = record t {
  roots = put i (stamped n s reason now (closer t id)) roots;
}

-- SetStatus on the node at a place.
unfoldable pub set_at : Tree → ℕ → Text → Status → Text → ℕ → Tree
unfolding previous demote written_at
set_at t i id s reason now =
    let roots = if is_doing s then demote (previous t id) i t.roots else t.roots in
    written_at t i id s reason now roots (get_elem? (walk roots) i)

unfoldable pub status_at : Tree → Text → Status → Text → ℕ → Option ℕ → Tree × Option ℕ
unfolding set_at
status_at t id s reason now none = (t, none)
status_at t id s reason now (some i) = (set_at t i id s reason now, some i)

-- SetStatus: the tree after it, and the place of the node it returns.
unfoldable pub set_status : Tree → Text → Status → Text → ℕ → Tree × Option ℕ
unfolding find status_at
set_status t id s reason now = status_at t id s reason now (find id (walk t.roots))

-- Terminal, of a node and of the nodes of a generation.
unfoldable pub all_terminal : Nodes → Bool
all_terminal nil = true
all_terminal (branch n children rest) =
    let below = all_terminal children in
    let beside = all_terminal rest in is_terminal n.status && below && beside
