-- ===== src/Engine/Tree/Grown.antt =====
-- Add and Remove on trees whose ids are by position.
use be_code_redux.Base.{
  ℕ, zero, suc, ◌+◌, ◌-◌, ◌<◌, List, [], ◌∷◌, ◌++◌, Text, text_keyed, nat_keyed, ltb, length, ◌≡◌,
  ◌≢◌, refl, sym, ap, ◌∙◌, subst, arith, All, All-append, All-split, Sublistᴰ-append, Sublistᴰ-self,
  inl, inr, Bool-cases, append_assoc, length-append,
}
use mathlib.Core.List.{Sublistᴰ}
use be_code_redux.Decimal.{int_limit}
use be_code_redux.Engine.Tree.{
  NodeInfo, Nodes, nil, branch, walk, generation, dot, index_of, max_index, next_text, new_node,
  append_node, add_child,
}
use be_code_redux.Engine.Tree.Ids.{IsPrefix, max_index-room, next_text-fresh}
use be_code_redux.Engine.Tree.Placed.{HasIndex, IsNumbered}

generation-append_node :
    (f : Nodes) (x : NodeInfo) → generation (append_node f x) ≡ generation f ++ x ∷ []
unfolding generation append_node
generation-append_node nil x = refl
generation-append_node (branch n children rest) x = ap (λ l. n ∷ l) (generation-append_node rest x)

append_node-IsNumbered :
    (pre : Text) (f : Nodes) (x : NodeInfo)
    → IsNumbered pre f
    → HasIndex pre x
    → All (λ m. m.id ≢ x.id) (generation f)
    → IsNumbered pre (append_node f x)
unfolding append_node generation
append_node-IsNumbered pre nil x h i d = (i, tt, tt, tt)
append_node-IsNumbered pre (branch n children rest) x (j, c, e, h) i (ne, d) = (
  j,
  c,
  rw (generation-append_node rest x)
      (All-append (λ m. n.id ≢ m.id) (generation rest) (x ∷ []) e (ne, tt)),
  append_node-IsNumbered pre rest x h i d,
)

pub walk-generation : (P : NodeInfo → Type 0) (f : Nodes) → All P (walk f) → All P (generation f)
unfolding walk generation
walk-generation P nil h = tt
walk-generation P (branch n children rest) (hn, h) =
    (hn, walk-generation P rest (All-split P (walk children) (walk rest) h).1)

-- An id's index leaves room for the next one in an int.
abbrev pub HasRoom : NodeInfo → Type 0
HasRoom m = index_of m.id + 1 < int_limit

-- Add files a node where its generation has room for one more index.
pub filed-IsNumbered :
    (pre : Text) (f : Nodes) (text : Text) (now : ℕ)
    → IsPrefix pre
    → IsNumbered pre f
    → All HasRoom (generation f)
    → IsNumbered pre (append_node f (new_node (pre ++ next_text (generation f)) text now))
filed-IsNumbered pre f text now p h room =
    let small = max_index-room (generation f) room in
    let (spelled, fresh) = next_text-fresh pre (generation f) p small in
    append_node-IsNumbered pre f (new_node (pre ++ next_text (generation f)) text now) h
      (record {
        index = max_index (generation f) + 1;
        small = small;
        spelled = ap (λ l. pre ++ l) spelled;
      })
      fresh

generation-add_child :
    (i : ℕ) (text : Text) (now : ℕ) (f : Nodes) → generation (add_child i text now f) ≡ generation f
unfolding generation add_child
generation-add_child i text now nil = refl
generation-add_child zero text now (branch n children rest) = refl
generation-add_child (suc i) text now (branch n children rest) =
    elim (Bool-cases (ltb i (length (walk children)))) [
      | inl e ↦ rw e refl
      | inr e ↦
          rw e (ap (λ l. n ∷ l) (generation-add_child (i - length (walk children)) text now rest))
    ]

pub add_child-IsNumbered :
    (pre : Text) (i : ℕ) (text : Text) (now : ℕ) (f : Nodes)
    → IsNumbered pre f
    → All HasRoom (walk f)
    → IsNumbered pre (add_child i text now f)
unfolding add_child walk
add_child-IsNumbered pre i text now nil h room = tt
add_child-IsNumbered pre zero text now (branch n children rest) (j, c, d, h) (rn, room) =
    let below = (All-split HasRoom (walk children) (walk rest) room).0 in
    (
      j,
      subst (λ id. IsNumbered (n.id ++ dot ∷ []) (append_node children (new_node id text now)))
          (append_assoc n.id (dot ∷ []) (next_text (generation children)))
          (filed-IsNumbered (n.id ++ dot ∷ []) children text now (inr (n.id, refl)) c
            (walk-generation HasRoom children below)),
      d,
      h,
    )
add_child-IsNumbered pre (suc i) text now (branch n children rest) (j, c, d, h) (rn, room) =
    let (below, beside) = All-split HasRoom (walk children) (walk rest) room in
    elim (Bool-cases (ltb i (length (walk children)))) [
      | inl e ↦ rw e (j, add_child-IsNumbered (n.id ++ dot ∷ []) i text now children c below, d, h)
      | inr e ↦
          let k = i - length (walk children) in
          rw e (
            j,
            c,
            rw (generation-add_child k text now rest) d,
            add_child-IsNumbered pre k text now rest h beside,
          )
    ]

walk-append_node : (f : Nodes) (x : NodeInfo) → walk (append_node f x) ≡ walk f ++ x ∷ []
unfolding walk append_node
walk-append_node nil x = refl
walk-append_node (branch n children rest) x =
    ap (λ l. n ∷ (walk children ++ l)) (walk-append_node rest x)
    ∙ ap (λ l. n ∷ l) (sym (append_assoc (walk children) (walk rest) (x ∷ [])))

kept-append : (xs : List NodeInfo) (x : NodeInfo) → Sublistᴰ xs (xs ++ x ∷ [])
kept-append [] x = Sublistᴰ.cons Sublistᴰ.slnil
kept-append (y ∷ xs) x = Sublistᴰ.cons-cons refl (kept-append xs x)

-- The old nodes with one more among them.
abbrev pub OneMore : Nodes → Nodes → Type 0
OneMore f g = Sublistᴰ (walk f) (walk g) × (length (walk g) ≡ suc (length (walk f)))

pub append_node-OneMore : (f : Nodes) (x : NodeInfo) → OneMore f (append_node f x)
append_node-OneMore f x =
    rw (walk-append_node f x)
      (kept-append (walk f) x, omega (arith, length-append (walk f) (x ∷ [])))

beside_counts :
    (a b b' : List NodeInfo) → length b' ≡ suc (length b) → length (a ++ b') ≡ suc (length (a ++ b))
beside_counts a b b' e = omega (arith, length-append a b', length-append a b)

below_counts :
    (a a' b : List NodeInfo) → length a' ≡ suc (length a) → length (a' ++ b) ≡ suc (length (a ++ b))
below_counts a a' b e = omega (arith, length-append a' b, length-append a b)

pub add_child-OneMore :
    (i : ℕ) (text : Text) (now : ℕ) (f : Nodes)
    → i < length (walk f)
    → OneMore f (add_child i text now f)
unfolding add_child walk
add_child-OneMore i text now nil h = absurd (omega arith)
add_child-OneMore zero text now (branch n children rest) h =
    let (s, c) =
      append_node-OneMore children
        (new_node (n.id ++ dot ∷ next_text (generation children)) text now) in
    (
      Sublistᴰ.cons-cons refl (Sublistᴰ-append s (Sublistᴰ-self (walk rest))),
      ap suc (
          below_counts (walk children)
            (walk (
              append_node children
                (new_node (n.id ++ dot ∷ next_text (generation children)) text now)))
            (walk rest) c),
    )
add_child-OneMore (suc i) text now (branch n children rest) h =
    elim (Bool-cases (ltb i (length (walk children)))) [
      | inl e ↦
          let (s, c) = add_child-OneMore i text now children (ground arith) in
          rw e (
            Sublistᴰ.cons-cons refl (Sublistᴰ-append s (Sublistᴰ-self (walk rest))),
            ap suc
                (below_counts (walk children) (walk (add_child i text now children)) (walk rest) c),
          )
      | inr e ↦
          let k = i - length (walk children) in
          let (s, c) =
            add_child-OneMore k text now rest
              (ground (arith, length-append (walk children) (walk rest))) in
          rw e (
            Sublistᴰ.cons-cons refl (Sublistᴰ-append (Sublistᴰ-self (walk children)) s),
            ap suc (beside_counts (walk children) (walk rest) (walk (add_child k text now rest)) c),
          )
    ]
