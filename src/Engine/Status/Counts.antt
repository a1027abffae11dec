-- ===== src/Engine/Status/Counts.antt =====
-- How writes to the nodes of a tree change its walk, and how many of them a test accepts.
use be_code_redux.Base.{
  ℕ, zero, suc, ◌+◌, ◌-◌, ◌≤◌, ◌<◌, List, [], ◌∷◌, ◌++◌, Bool, true, text_keyed, nat_keyed,
  if◌then◌else◌, ltb, none, some, length, get_elem?, set, ◌≡◌, refl, sym, ap, ◌∙◌, subst, arith,
  inl, inr, Bool-cases, Option-cases, total, total-set, some-injective,
}
use be_code_redux.Engine.Tree.{NodeInfo, Nodes, nil, branch, walk}
use be_code_redux.Engine.Status.{first_where, put}

set-append_left :
    (a b : List NodeInfo) (i : ℕ) (x : NodeInfo) → i < length a → set (a ++ b) i x ≡ set a i x ++ b
set-append_left [] b i x h = absurd (omega arith)
set-append_left (y ∷ a) b zero x h = refl
set-append_left (y ∷ a) b (suc i) x h = ap (λ l. y ∷ l) (set-append_left a b i x (omega arith))

set-append_right :
    (a b : List NodeInfo) (i : ℕ) (x : NodeInfo)
    → length a ≤ i
    → set (a ++ b) i x ≡ a ++ set b (i - length a) x
set-append_right [] b i x h = ap (λ k. set b k x) (omega arith)
set-append_right (y ∷ a) b zero x h = absurd (omega arith)
set-append_right (y ∷ a) b (suc i) x h =
    ap (λ l. y ∷ l)
      (set-append_right a b i x (omega arith) ∙ ap (λ k. a ++ set b k x) (omega arith))

-- A write at a place of the tree is a write at that place of its walk.
pub walk-put : (i : ℕ) (x : NodeInfo) (f : Nodes) → walk (put i x f) ≡ set (walk f) i x
unfolding walk put
walk-put i x nil = refl
walk-put zero x (branch n children rest) = refl
walk-put (suc i) x (branch n children rest) = elim (Bool-cases (ltb i (length (walk children)))) [
  | inl e ↦ rw e (
      ap (λ l. n ∷ (l ++ walk rest)) (walk-put i x children)
      ∙ ap (λ l. n ∷ l) (sym (set-append_left (walk children) (walk rest) i x (ground arith))))
  | inr e ↦ rw e (
      ap (λ l. n ∷ (walk children ++ l)) (walk-put (i - length (walk children)) x rest)
      ∙ ap (λ l. n ∷ l) (sym (set-append_right (walk children) (walk rest) i x (ground arith))))
]

abbrev pub weight : (NodeInfo → Bool) → NodeInfo → ℕ
weight p n = if p n then 1 else 0

abbrev pub count : (NodeInfo → Bool) → List NodeInfo → ℕ
count p ns = total (weight p) ns

pub first_where-none :
    (p : NodeInfo → Bool) (ns : List NodeInfo) → first_where p ns ≡ none → count p ns ≡ 0
unfolding first_where
first_where-none p [] h = refl
first_where-none p (n ∷ ns) h = elim (Option-cases (first_where p ns)) [
  | inl e ↦ ground (arith, first_where-none p ns e)
  | inr (j, e) ↦ absurd (ground arith)
]

pub first_where-some :
    (p : NodeInfo → Bool) (ns : List NodeInfo) (j : ℕ)
    → first_where p ns ≡ some j
    → (n : NodeInfo) × (get_elem? ns j ≡ some n) × (p n ≡ true)
unfolding first_where
first_where-some p [] j h = cc
first_where-some p (n ∷ ns) j h = elim (Bool-cases (p n)) [
  | inl e ↦
      let place : 0 ≡ j = some-injective (rw e at h) in
      (n, subst (λ k. get_elem? (n ∷ ns) k ≡ some n) place refl, e)
  | inr e ↦ elim (Option-cases (first_where p ns)) [
    | inl k ↦ cc (rw (e, k) at h)
    | inr (i, k) ↦
        let place : suc i ≡ j = some-injective (rw (e, k) at h) in
        let (m, g, q) = first_where-some p ns i k in
        (m, subst (λ k. get_elem? (n ∷ ns) k ≡ some m) place g, q)
  ]
]

-- A write of a node that the test refuses.
pub count-set :
    (p : NodeInfo → Bool) (ns : List NodeInfo) (i : ℕ) (n x : NodeInfo)
    → get_elem? ns i ≡ some n
    → count p (set ns i x) + weight p n ≡ count p ns + weight p x
count-set p ns i n x g = total-set (weight p) ns i n x g

pub weight-le : (p : NodeInfo → Bool) (n : NodeInfo) → weight p n ≤ 1
weight-le p n = ground arith
