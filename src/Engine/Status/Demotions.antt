-- ===== src/Engine/Status/Demotions.antt =====
-- The walk after demote, and how many nodes are doing in a group of ids after the write behind it.
use be_code_redux.Base.{
  ℕ, zero, suc, ◌+◌, ◌≤◌, List, [], ◌∷◌, Bool, false, ◌&&◌, Text, text_keyed, nat_keyed, ◌==◌,
  Option, none, some, get_elem?, set, ◌≡◌, ◌≢◌, refl, sym, ap, ◌∙◌, arith, inl, inr, Bool-cases,
  Option-cases, eq_of_beq, some-injective,
}
use be_code_redux.Engine.Tree.{is_doing, NodeInfo, Nodes, walk}
use be_code_redux.Engine.Status.{first_where, demoted, demote}
use be_code_redux.Engine.Status.Counts.{
  walk-put, weight, count, count-set, weight-le, first_where-none, first_where-some,
}

-- A doing node whose id has a property.
abbrev pub doing_with : (Text → Bool) → NodeInfo → Bool
doing_with q n = is_doing n.status && q n.id

-- What demote does to a walk, for the place of the node that changes.
pub data Demotion (ns : List NodeInfo) (i : ℕ) (o : Option ℕ) (ms : List NodeInfo) : Type 0 where
  nobody : o ≡ none → ms ≡ ns → Demotion ns i o ms
  itself : o ≡ some i → ms ≡ ns → Demotion ns i o ms
  missing : (j : ℕ) → o ≡ some j → get_elem? ns j ≡ none → ms ≡ ns → Demotion ns i o ms
  another :
      (j : ℕ) (n : NodeInfo)
      → o ≡ some j
      → j ≢ i
      → get_elem? ns j ≡ some n
      → ms ≡ set ns j (demoted n)
      → Demotion ns i o ms

pub demote-Demotion :
    (o : Option ℕ) (i : ℕ) (f : Nodes) → Demotion (walk f) i o (walk (demote o i f))
unfolding demote
demote-Demotion none i f = nobody refl refl
demote-Demotion (some j) i f = elim (Bool-cases (j == i)) [
  | inl e ↦ rw e (itself (ap some (eq_of_beq e)) refl)
  | inr e ↦ rw e (elim (Option-cases (get_elem? (walk f) j)) [
    | inl g ↦ rw g (missing j refl g refl)
    | inr (n, g) ↦ rw g (another j n refl (ground arith) g (walk-put j (demoted n) f))
  ])
]

get_elem?-set_other :
    (ns : List NodeInfo) (j i : ℕ) (x : NodeInfo)
    → j ≢ i
    → get_elem? (set ns j x) i ≡ get_elem? ns i
get_elem?-set_other [] j i x h = refl
get_elem?-set_other (n ∷ ns) zero zero x h = absurd (h refl)
get_elem?-set_other (n ∷ ns) zero (suc i) x h = refl
get_elem?-set_other (n ∷ ns) (suc j) zero x h = refl
get_elem?-set_other (n ∷ ns) (suc j) (suc i) x h = get_elem?-set_other ns j i x (omega arith)

module _ (ns : List NodeInfo) (i : ℕ) (o : Option ℕ) (ms : List NodeInfo)
    (m : Demotion ns i o ms) where
  pub still_there : (n : NodeInfo) → get_elem? ns i ≡ some n → get_elem? ms i ≡ some n
  still_there n g = elim m [
    | nobody e k ↦ rw k g
    | itself e k ↦ rw k g
    | missing j e a k ↦ rw k g
    | another j b e ne a k ↦ rw k (get_elem?-set_other ns j i (demoted b) ne ∙ g)
  ]

  module _ (q : Text → Bool) where
    demoted-le : count (doing_with q) ms ≤ count (doing_with q) ns
    demoted-le = elim m [
      | nobody e k ↦ rw k (omega arith)
      | itself e k ↦ rw k (omega arith)
      | missing j e a k ↦ rw k (omega arith)
      | another j b e ne a k ↦ rw k (omega (arith, count-set (doing_with q) ns j b (demoted b) a))
    ]

    -- A node that does not count leaves no more.
    pub written-le :
        (n x : NodeInfo)
        → get_elem? ns i ≡ some n
        → doing_with q x ≡ false
        → count (doing_with q) (set ms i x) ≤ count (doing_with q) ns
    written-le n x g no_more =
        let w : weight (doing_with q) x ≡ 0 = rw no_more refl in
        omega (arith, demoted-le, w, count-set (doing_with q) ms i n x (still_there n g))

    -- The new doing node replaces the first of them.
    pub replaced-le :
        (n x : NodeInfo)
        → get_elem? ns i ≡ some n
        → o ≡ first_where (doing_with q) ns
        → count (doing_with q) ns ≤ 1
        → count (doing_with q) (set ms i x) ≤ 1
    replaced-le n x g first one =
        let w = weight-le (doing_with q) x in
        let c = count-set (doing_with q) ms i n x (still_there n g) in
        elim m [
          | nobody e k ↦
              omega (arith, w, c, demoted-le, first_where-none (doing_with q) ns (sym first ∙ e))
          | itself e k ↦
              let (b, gb, pb) = first_where-some (doing_with q) ns i (sym first ∙ e) in
              let same : b ≡ n = some-injective (sym gb ∙ g) in
              let counted : weight (doing_with q) n ≡ 1 = rw (← same) (rw pb refl) in
              omega (arith, w, c, demoted-le, counted)
          | missing j e a k ↦
              let (b, gb, pb) = first_where-some (doing_with q) ns j (sym first ∙ e) in cc (a, gb)
          | another j b e ne a k ↦
              let (b', gb, pb) = first_where-some (doing_with q) ns j (sym first ∙ e) in
              let same : b' ≡ b = some-injective (sym gb ∙ a) in
              let counted : weight (doing_with q) b ≡ 1 = rw (← same) (rw pb refl) in
              let less : count (doing_with q) ms + 1 ≡ count (doing_with q) ns =
                rw k (omega (arith, counted, count-set (doing_with q) ns j b (demoted b) a)) in
              omega (arith, w, c, less)
        ]
