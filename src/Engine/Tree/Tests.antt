-- ===== src/Engine/Tree/Tests.antt =====
-- A small tree, an id that is handed out again, and the theorems at them.
use be_code_redux.Base.{
  [], ◌∷◌, codes, text_keyed, nat_keyed, ◌≡◌, refl, arith, All, Pairwise, map, length, ◌≤◌, ◌⊎◌,
}
use be_code_redux.Paths.{split, join, fields}
use be_code_redux.Decimal.{itoa, digits, read_number, read_digits, atoi, int_text}
use be_code_redux.Engine.Tree.{
  NodeInfo, nil, branch, Tree, walk, generation, last_part, index_of, max_index, next_text,
  one_spaced, find, new_node, append_node, add_child, parent_place, add_under, add, remove_at,
}
use be_code_redux.Engine.Tree.Placed.{IsNumbered, Differ}
use be_code_redux.Engine.Tree.Grown.{HasRoom, OneMore}
use be_code_redux.Engine.Tree.Numbered.{add-IsNumbered}
use be_code_redux.Engine.Tree.Removed.{IsWithout, remove_at-IsNumbered}

program : Unit {0}
unfolding walk generation last_part index_of max_index next_text one_spaced find append_node
    add_child parent_place add_under add remove_at split fields join itoa digits read_digits
    read_number atoi int_text
program = tt

abbrev first : NodeInfo
first = new_node (codes "1") (codes "plan") 5

abbrev under_it : NodeInfo
under_it = new_node (codes "1.2") (codes "build") 6

abbrev small : Tree
small = record { roots = branch first (branch under_it nil nil) nil; dispatched = [] }

ids :
    map (λ n. n.id) (walk (add small (codes "1") (codes "  test it ") 7).roots)
    ≡ codes "1" ∷ codes "1.2" ∷ codes "1.3" ∷ []
unfolding program
ids = refl

abbrev shrunk : Tree
shrunk = record small { roots = remove_at 2 (add small (codes "1") (codes "test") 7).roots }

-- The id of a removed last sibling is given to the next node.
reused :
    map (λ n. n.id) (walk (add shrunk (codes "1") (codes "ship") 8).roots)
    ≡ codes "1" ∷ codes "1.2" ∷ codes "1.3" ∷ []
unfolding program
reused = refl

numbered : IsNumbered [] small.roots
unfolding program
numbered = (
  record { index = 1; small = omega arith; spelled = refl },
  (record { index = 2; small = omega arith; spelled = refl }, tt, tt, tt),
  tt,
  tt,
)

room : All HasRoom (walk small.roots)
unfolding program
room = (omega arith, (omega arith, tt))

add-IsNumbered_example :
    IsNumbered [] (add small (codes "1") (codes "test") 7).roots
    × Pairwise Differ (walk (add small (codes "1") (codes "test") 7).roots)
    × OneMore small.roots (add small (codes "1") (codes "test") 7).roots
add-IsNumbered_example = add-IsNumbered small (codes "1") (codes "test") 7 numbered room

remove_at-IsNumbered_example :
    IsNumbered [] (remove_at 1 small.roots)
    × Pairwise Differ (walk (remove_at 1 small.roots))
    × (((length (walk small.roots) ≤ 1) × (remove_at 1 small.roots ≡ small.roots))
        ⊎ IsWithout 1 small.roots (remove_at 1 small.roots))
remove_at-IsNumbered_example = remove_at-IsNumbered 1 small.roots numbered
