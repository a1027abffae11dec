-- ===== src/Engine/Tree/Numbered.antt =====
-- Add as a whole.
use be_code_redux.Base.{
  ℕ, zero, suc, ◌<◌, List, [], ◌∷◌, Text, text_keyed, nat_keyed, ◌==◌, Option, none, some, length,
  get_elem?, ◌≡◌, refl, subst, arith, All, Pairwise, inl, inr, eq_of_beq, Bool-cases, Option-cases,
}
use be_code_redux.Engine.Tree.{
  NodeInfo, Nodes, Tree, walk, generation, next_text, new_node, one_spaced, find, parent_place,
  add_under, add,
}
use be_code_redux.Engine.Tree.Placed.{IsNumbered, Differ, IsNumbered-Pairwise}
use be_code_redux.Engine.Tree.Grown.{
  HasRoom, OneMore, walk-generation, filed-IsNumbered, add_child-IsNumbered, append_node-OneMore,
  add_child-OneMore,
}

-- A place that Find returns holds a node with the id.
pub find-some :
    (id : Text) (ns : List NodeInfo) (i : ℕ)
    → find id ns ≡ some i
    → (n : NodeInfo) × (get_elem? ns i ≡ some n) × (n.id ≡ id)
unfolding find
find-some id [] i h = cc
find-some id (n ∷ ns) i h = elim (Option-cases (find id ns)) [
  | inr (j, e) ↦
      let (m, g, k) = find-some id ns j e in
      let place : suc j ≡ i = ground arith in
      (m, subst (λ p. get_elem? (n ∷ ns) p ≡ some m) place g, k)
  | inl e ↦ elim (Bool-cases (n.id == id)) [
    | inl k ↦
        let place : 0 ≡ i = ground arith in
        (n, subst (λ p. get_elem? (n ∷ ns) p ≡ some n) place refl, eq_of_beq k)
    | inr k ↦ cc (rw (e, k) at h)
  ]
]

get_elem?-lt : (ns : List NodeInfo) (i : ℕ) (n : NodeInfo) → get_elem? ns i ≡ some n → i < length ns
get_elem?-lt [] i n h = cc
get_elem?-lt (m ∷ ns) zero n h = omega arith
get_elem?-lt (m ∷ ns) (suc i) n h = omega (arith, get_elem?-lt ns i n h)

parent_place-lt :
    (f : Nodes) (parent : Text) (i : ℕ) → parent_place f parent ≡ some i → i < length (walk f)
unfolding parent_place
parent_place-lt f parent i h = elim (Bool-cases (parent == [])) [
  | inl e ↦ cc (rw e at h)
  | inr e ↦ let (n, g, k) = find-some parent (walk f) i (rw e at h) in get_elem?-lt (walk f) i n g
]

add_under-IsNumbered :
    (place : Option ℕ) (text : Text) (now : ℕ) (f : Nodes)
    → ((i : ℕ) → place ≡ some i → i < length (walk f))
    → IsNumbered [] f
    → All HasRoom (walk f)
    → IsNumbered [] (add_under place text now f) × OneMore f (add_under place text now f)
unfolding add_under
add_under-IsNumbered none text now f inside h room = (
  filed-IsNumbered [] f text now (inl refl) h (walk-generation HasRoom f room),
  append_node-OneMore f (new_node (next_text (generation f)) text now),
)
add_under-IsNumbered (some i) text now f inside h room =
    (add_child-IsNumbered [] i text now f h room, add_child-OneMore i text now f (inside i refl))

-- In a tree whose ids are by position, and whose indices leave room for the next one in an int, Add
-- keeps every node in its order and files one more; the ids are by position still, and no two
-- nodes have the same one.
pub add-IsNumbered :
    (t : Tree) (parent text : Text) (now : ℕ)
    → IsNumbered [] t.roots
    → All HasRoom (walk t.roots)
    → IsNumbered [] (add t parent text now).roots
      × Pairwise Differ (walk (add t parent text now).roots)
      × OneMore t.roots (add t parent text now).roots
unfolding add
add-IsNumbered t parent text now h room =
    let (numbered, more) =
      add_under-IsNumbered (parent_place t.roots parent) (one_spaced text) now t.roots
        (parent_place-lt t.roots parent) h room in
    (numbered, IsNumbered-Pairwise [] (add t parent text now).roots numbered, more)
