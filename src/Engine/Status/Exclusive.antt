-- ===== src/Engine/Status/Exclusive.antt =====
-- At most one node is doing in each pen, and SetStatus keeps it so.
use std.Path.{fun_ext}
use be_code_redux.Base.{
  All-members, ℕ, ◌≤◌, List, [], Bool, true, ◌&&◌, Text, text_keyed, nat_keyed, ◌==◌, if◌then◌else◌,
  Option, none, some, get_elem?, set, ◌≡◌, ◌≢◌, refl, sym, ap, ◌∙◌, subst, arith, All, In, All-In,
  inl, inr, Bool-cases, Option-cases, eq_of_beq,
}
use be_code_redux.Engine.Tree.{Status, is_doing, NodeInfo, Tree, walk, find}
use be_code_redux.Engine.Tree.Numbered.{find-some}
use be_code_redux.Engine.Status.{
  in_subtree, pen_of, first_where, doing_in, doing_under, doing_main, doing_node, owner_of,
  previous, demoted, demote, stamped, closer, set_at, written_at, status_at, set_status,
}
use be_code_redux.Engine.Status.Pens.{Unnested, in_subtree_unique, pen_of-cases, pen_of-nil}
use be_code_redux.Engine.Status.Counts.{walk-put, count}
use be_code_redux.Engine.Status.Names.{owner_of-set}
use be_code_redux.Engine.Status.Demotions.{
  doing_with, Demotion, nobody, itself, missing, another, demote-Demotion, still_there, written-le,
  replaced-le,
}

abbrev in_pen : Text → Text → Bool
in_pen root id = in_subtree id root

abbrev on_main : List Text → List NodeInfo → Text → Bool
on_main d ns id = (pen_of d id == []) && (owner_of ns id == [])

-- At most one node is doing below each dispatched root, and at most one is the main worker's.
abbrev pub OneDoing : List Text → List NodeInfo → Type 0
OneDoing d ns = All (λ r. count (doing_in r) ns ≤ 1) d × (count (doing_main d ns) ns ≤ 1)

-- The owners of a walk after a demotion.
owner_of-Demotion :
    (ns : List NodeInfo) (i : ℕ) (o : Option ℕ) (ms : List NodeInfo)
    → Demotion ns i o ms
    → (id : Text) → owner_of ns id ≡ owner_of ms id
owner_of-Demotion ns i o ms m id = elim m [
  | nobody e k ↦ rw k refl
  | itself e k ↦ rw k refl
  | missing j e a k ↦ rw k refl
  | another j b e ne a k ↦ rw k (owner_of-set ns j b (demoted b) id a refl refl)
]

previous-pen :
    (t : Tree) (id r : Text)
    → pen_of t.dispatched id ≡ r
    → r ≢ []
    → previous t id ≡ first_where (doing_in r) (walk t.roots)
unfolding previous doing_under
previous-pen t id r e ne = elim (Bool-cases (r == [])) [
  | inl k ↦ absurd (ne (eq_of_beq k))
  | inr k ↦ rw e (rw k refl)
]

previous-main :
    (t : Tree) (id : Text)
    → pen_of t.dispatched id ≡ []
    → previous t id ≡ first_where (doing_main t.dispatched (walk t.roots)) (walk t.roots)
unfolding previous doing_node
previous-main t id e = rw e refl

-- A write of a node that keeps its id and owner, behind a demotion of the previous doing node
-- where the new one is doing.
module _ (t : Tree) (i : ℕ) (n x : NodeInfo) (o : Option ℕ) (ms : List NodeInfo)
    (u : Unnested t.dispatched) (one : OneDoing t.dispatched (walk t.roots))
    (g : get_elem? (walk t.roots) i ≡ some n) (same_id : n.id ≡ x.id)
    (same_owner : n.owner ≡ x.owner) (m : Demotion (walk t.roots) i o ms)
    (o_lem : is_doing x.status ≡ true → o ≡ previous t x.id) where
  -- In a group of ids, the new doing node replaces the doing node of the group, or it is outside.
  group_after :
      (q : Text → Bool)
      → (q x.id ≡ true → previous t x.id ≡ first_where (doing_with q) (walk t.roots))
      → count (doing_with q) (walk t.roots) ≤ 1
      → count (doing_with q) (set ms i x) ≤ 1
  group_after q first one_before = elim (Bool-cases (is_doing x.status)) [
    | inr k ↦ omega (arith, one_before, written-le (walk t.roots) i o ms m q n x g (rw k refl))
    | inl k ↦ elim (Bool-cases (q x.id)) [
      | inr l ↦
          omega (arith, one_before, written-le (walk t.roots) i o ms m q n x g (rw (k, l) refl))
      | inl l ↦ replaced-le (walk t.roots) i o ms m q n x g (o_lem k ∙ first l) one_before
    ]
  ]

  pen_after : (r : Text) → In r t.dispatched → count (doing_in r) (set ms i x) ≤ 1
  pen_after r mem =
      let nonempty : r ≢ [] = (All-In _ r t.dispatched u mem).0 in
      group_after (in_pen r)
        (λ inside.
          previous-pen t x.id r
            (elim (pen_of-cases t.dispatched x.id) [
              | inl e ↦ cc (pen_of-nil t.dispatched x.id r e mem nonempty, inside)
              | inr (mp, h) ↦
                  in_subtree_unique t.dispatched x.id (pen_of t.dispatched x.id) r u mp mem h inside
            ])
            nonempty)
        (All-In (λ r. count (doing_in r) (walk t.roots) ≤ 1) r t.dispatched one.0 mem)

  same_owners : owner_of (walk t.roots) ≡ owner_of (set ms i x)
  same_owners = fun_ext (λ id.
      owner_of-Demotion (walk t.roots) i o ms m id
      ∙ owner_of-set ms i n x id (still_there (walk t.roots) i o ms m n g) same_id same_owner)

  main_after : count (doing_main t.dispatched (set ms i x)) (set ms i x) ≤ 1
  main_after =
      subst
        (λ f.
          count (λ n. is_doing n.status && ((pen_of t.dispatched n.id == []) && (f n.id == [])))
            (set ms i x)
          ≤ 1)
        same_owners
        (group_after (on_main t.dispatched (walk t.roots))
          (λ inside. previous-main t x.id (eq_of_beq (ground arith))) one.1)

  write-OneDoing : OneDoing t.dispatched (set ms i x)
  write-OneDoing =
      (All-members (λ r. count (doing_in r) (set ms i x) ≤ 1) t.dispatched pen_after, main_after)

set_at-Demotion :
    (t : Tree) (i : ℕ) (id : Text) (s : Status)
    → (o : Option ℕ) × Demotion
        (walk t.roots)
        i
        o
        (walk (if is_doing s then demote (previous t id) i t.roots else t.roots))
      × (is_doing s ≡ true → o ≡ previous t id)
set_at-Demotion t i id s = elim (Bool-cases (is_doing s)) [
  | inl e ↦ rw e (previous t id, demote-Demotion (previous t id) i t.roots, λ h. refl)
  | inr e ↦ rw e (none, nobody refl refl, λ h. cc)
]

set_at-OneDoing :
    (t : Tree) (i : ℕ) (id : Text) (n : NodeInfo) (s : Status) (reason : Text) (now : ℕ)
    → Unnested t.dispatched
    → OneDoing t.dispatched (walk t.roots)
    → get_elem? (walk t.roots) i ≡ some n
    → n.id ≡ id
    → OneDoing t.dispatched (walk (set_at t i id s reason now).roots)
unfolding set_at stamped
set_at-OneDoing t i id n s reason now u one g named =
    let (o, m, o_lem) = set_at-Demotion t i id s in
    let roots = if is_doing s then demote (previous t id) i t.roots else t.roots in
    let x = stamped n s reason now (closer t id) in
    let there : get_elem? (walk roots) i ≡ some n =
      still_there (walk t.roots) i o (walk roots) m n g in
    subst (λ e. OneDoing t.dispatched (walk (written_at t i id s reason now roots e).roots))
      (sym there)
      (subst (OneDoing t.dispatched) (sym (walk-put i x roots)) (
        write-OneDoing t i n x o (walk roots) u one g refl refl m
          (λ k. o_lem k ∙ ap (previous t) (sym named))))

-- Where dispatched subtrees do not nest and each pen, a dispatched subtree or the main worker's
-- part of the tree, has at most one doing node, this holds after SetStatus as well.
pub set_status-OneDoing :
    (t : Tree) (id : Text) (s : Status) (reason : Text) (now : ℕ)
    → Unnested t.dispatched
    → OneDoing t.dispatched (walk t.roots)
    → OneDoing t.dispatched (walk (set_status t id s reason now).0.roots)
unfolding set_status
set_status-OneDoing t id s reason now u one = elim (Option-cases (find id (walk t.roots))) [
  | inl e ↦
      subst (λ p. OneDoing t.dispatched (walk (status_at t id s reason now p).0.roots)) (sym e) one
  | inr (i, e) ↦
      let (n, g, named) = find-some id (walk t.roots) i e in
      subst (λ p. OneDoing t.dispatched (walk (status_at t id s reason now p).0.roots)) (sym e)
        (set_at-OneDoing t i id n s reason now u one g named)
]
