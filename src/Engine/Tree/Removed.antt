-- ===== src/Engine/Tree/Removed.antt =====
-- What becomes of the ids and the nodes when Remove takes a node away.
use be_code_redux.Base.{
  ℕ, zero, suc, ◌-◌, ◌≤◌, List, [], ◌∷◌, ◌++◌, Text, ltb, length, ◌≡◌, ◌≢◌, refl, ap, sym, arith,
  All, Pairwise, inl, inr, ◌⊎◌, Bool-cases, append_assoc, length-append,
}
use be_code_redux.Engine.Tree.{NodeInfo, Nodes, nil, branch, walk, generation, dot, remove_at}
use be_code_redux.Engine.Tree.Placed.{IsNumbered, Differ, IsNumbered-Pairwise}

All-remove_at :
    (P : NodeInfo → Type 0) (i : ℕ) (f : Nodes)
    → All P (generation f)
    → All P (generation (remove_at i f))
unfolding remove_at generation
All-remove_at P i nil h = tt
All-remove_at P zero (branch n children rest) (hn, h) = h
All-remove_at P (suc i) (branch n children rest) (hn, h) =
    elim (Bool-cases (ltb i (length (walk children)))) [
      | inl e ↦ rw e (hn, h)
      | inr e ↦ rw e (hn, All-remove_at P (i - length (walk children)) rest h)
    ]

remove_at-IsNumbered_under :
    (pre : Text) (i : ℕ) (f : Nodes) → IsNumbered pre f → IsNumbered pre (remove_at i f)
unfolding remove_at
remove_at-IsNumbered_under pre i nil h = tt
remove_at-IsNumbered_under pre zero (branch n children rest) (j, c, d, h) = h
remove_at-IsNumbered_under pre (suc i) (branch n children rest) (j, c, d, h) =
    elim (Bool-cases (ltb i (length (walk children)))) [
      | inl e ↦ rw e (j, remove_at-IsNumbered_under (n.id ++ dot ∷ []) i children c, d, h)
      | inr e ↦
          let k = i - length (walk children) in
          rw e (
            j,
            c,
            All-remove_at (λ m. n.id ≢ m.id) k rest d,
            remove_at-IsNumbered_under pre k rest h,
          )
    ]

-- The node `n` with the children `below` stands in the tree; the walk has `pre` before it and
-- `post` behind its subtree.
pub data Stands : Nodes → List NodeInfo → NodeInfo → Nodes → List NodeInfo → Type 0 where
  here : (n : NodeInfo) (below rest : Nodes) → Stands (branch n below rest) [] n below (walk rest)
  inside :
      (m n : NodeInfo) (children below rest : Nodes) (pre post : List NodeInfo)
      → Stands children pre n below post
      → Stands (branch m children rest) (m ∷ pre) n below (post ++ walk rest)
  beside :
      (m n : NodeInfo) (children below rest : Nodes) (pre post : List NodeInfo)
      → Stands rest pre n below post
      → Stands (branch m children rest) (m ∷ (walk children ++ pre)) n below post

-- The subtree at the place `i` of the tree's walk is gone from `g`, and nothing else.
abbrev pub IsWithout : ℕ → Nodes → Nodes → Type 0
IsWithout i f g =
    (n : NodeInfo) × (below : Nodes) × (pre : List NodeInfo) × (post : List NodeInfo) × Stands f pre
      n below post
    × (length pre ≡ i)
    × (walk f ≡ pre ++ n ∷ (walk below ++ post))
    × (walk g ≡ pre ++ post)

IsWithout-inside :
    (i : ℕ) (m : NodeInfo) (children rest g : Nodes)
    → IsWithout i children g
    → IsWithout (suc i) (branch m children rest) (branch m g rest)
unfolding walk
IsWithout-inside i m children rest g (n, below, pre, post, stands, place, whole, left) = (
  n,
  below,
  m ∷ pre,
  post ++ walk rest,
  inside m n children below rest pre post stands,
  ap suc place,
  ap (λ l. m ∷ l) (rw whole (simp (append_assoc))),
  ap (λ l. m ∷ l) (rw left (append_assoc pre post (walk rest))),
)

IsWithout-beside :
    (i : ℕ) (m : NodeInfo) (children rest g : Nodes)
    → length (walk children) ≤ i
    → IsWithout (i - length (walk children)) rest g
    → IsWithout (suc i) (branch m children rest) (branch m children g)
unfolding walk
IsWithout-beside i m children rest g behind (n, below, pre, post, stands, place, whole, left) = (
  n,
  below,
  m ∷ (walk children ++ pre),
  post,
  beside m n children below rest pre post stands,
  omega (arith, behind, place, length-append (walk children) pre),
  ap (λ l. m ∷ l) (rw whole (sym (append_assoc (walk children) pre _))),
  ap (λ l. m ∷ l) (rw left (sym (append_assoc (walk children) pre post))),
)

abbrev IsRemoved : ℕ → Nodes → Nodes → Type 0
IsRemoved i f g = ((length (walk f) ≤ i) × (g ≡ f)) ⊎ IsWithout i f g

remove_at-IsRemoved : (i : ℕ) (f : Nodes) → IsRemoved i f (remove_at i f)
unfolding remove_at walk
remove_at-IsRemoved i nil = inl (omega arith, refl)
remove_at-IsRemoved zero (branch n children rest) =
    inr (n, children, [], walk rest, here n children rest, refl, refl, refl)
remove_at-IsRemoved (suc i) (branch n children rest) =
    elim (Bool-cases (ltb i (length (walk children)))) [
      | inl e ↦ rw e (elim (remove_at-IsRemoved i children) [
        | inl (out, same) ↦ absurd (ground arith)
        | inr gone ↦ inr (IsWithout-inside i n children rest _ gone)
      ])
      | inr e ↦
          let k = i - length (walk children) in
          rw e (elim (remove_at-IsRemoved k rest) [
            | inl (out, same) ↦ inl (
              ground (arith, out, length-append (walk children) (walk rest)),
              ap (branch n children) same,
            )
            | inr gone ↦ inr (IsWithout-beside i n children rest _ (ground arith) gone)
          ])
    ]

-- In a tree whose ids are by position, Remove keeps them by position, and no two nodes have the same
-- id. It takes away the node at the place it is given, with the subtree under it, and nothing else:
-- the walk is what it was before the node and behind its subtree. At a place behind the walk's end
-- it leaves the tree as it is.
pub remove_at-IsNumbered :
    (i : ℕ) (f : Nodes)
    → IsNumbered [] f
    → IsNumbered [] (remove_at i f)
      × Pairwise Differ (walk (remove_at i f))
      × (((length (walk f) ≤ i) × (remove_at i f ≡ f)) ⊎ IsWithout i f (remove_at i f))
remove_at-IsNumbered i f h =
    let numbered = remove_at-IsNumbered_under [] i f h in
    (numbered, IsNumbered-Pairwise [] (remove_at i f) numbered, remove_at-IsRemoved i f)
