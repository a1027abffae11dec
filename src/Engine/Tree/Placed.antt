-- ===== src/Engine/Tree/Placed.antt =====
-- Trees whose ids are by position: Add and Remove keep them so, and no id occurs twice.
use be_code_redux.Base.{
  ℕ, ◌<◌, List, [], ◌∷◌, ◌++◌, Text, text_keyed, nat_keyed, length, ◌≡◌, ◌≢◌, refl, sym, ap, ◌∙◌,
  arith, All, All-append, All-map, Pairwise, Pairwise-append, inl, inr, append_assoc, append-nil,
  length-append,
}
use be_code_redux.Decimal.{itoa, int_limit}
use be_code_redux.Engine.Tree.{NodeInfo, Nodes, nil, branch, walk, generation, dot}
use be_code_redux.Engine.Tree.Ids.{itoa-NoDot, IsTail, same_part, append-cancel}

pub record HasIndex (pre : Text) (n : NodeInfo) : Type 0 where
  pub index : ℕ
  pub small : index < int_limit
  pub spelled : n.id ≡ pre ++ itoa index

-- Each id is its parent's, a dot and an index, or an index at the root; siblings have different ids.
abbrev pub IsNumbered : Text → Nodes → Type 0
IsNumbered pre nil = Unit
IsNumbered pre (branch n children rest) =
    HasIndex pre n
    × IsNumbered (n.id ++ dot ∷ []) children
    × All (λ m. n.id ≢ m.id) (generation rest)
    × IsNumbered pre rest

walk-prefix :
    (pre : Text) (f : Nodes) → IsNumbered pre f → All (λ x. (r : Text) × (x.id ≡ pre ++ r)) (walk f)
unfolding walk
walk-prefix pre nil h = tt
walk-prefix pre (branch n children rest) (i, c, d, h) = (
  (itoa i.index, i.spelled),
  All-append (λ x. (r : Text) × (x.id ≡ pre ++ r)) (walk children) (walk rest)
      (All-map (λ x w. longer x w) (walk children) (walk-prefix (n.id ++ dot ∷ []) children c))
      (walk-prefix pre rest h),
)
  where
    longer :
        (x : NodeInfo)
        → (r : Text) × (x.id ≡ (n.id ++ dot ∷ []) ++ r)
        → (r : Text) × (x.id ≡ pre ++ r)
    longer x (r, e) = (
      (itoa i.index ++ dot ∷ []) ++ r,
      e
          ∙ append_assoc n.id (dot ∷ []) r
          ∙ ap (λ l. l ++ dot ∷ r) i.spelled
          ∙ append_assoc pre (itoa i.index) (dot ∷ r)
          ∙ ap (λ l. pre ++ l) (sym (append_assoc (itoa i.index) (dot ∷ []) r)),
    )

-- An id, or one below it.
abbrev Extends : Text → Text → Type 0
Extends id x = (r : Text) × (x ≡ id ++ r) × IsTail r

own-Extends :
    (n : NodeInfo) (children : Nodes)
    → IsNumbered (n.id ++ dot ∷ []) children
    → All (λ x. Extends n.id x.id) (n ∷ walk children)
own-Extends n children h = (
  ([], sym (append-nil n.id), inl refl),
  All-map (λ x w. (dot ∷ w.0, w.1 ∙ append_assoc n.id (dot ∷ []) w.0, inr (w.0, refl)))
      (walk children) (walk-prefix (n.id ++ dot ∷ []) children h),
)

-- Ids at or below two siblings differ.
cross :
    (pre : Text) (n m : NodeInfo)
    → HasIndex pre n
    → HasIndex pre m
    → n.id ≢ m.id
    → (x y : Text) → Extends n.id x
    → Extends m.id y
    → x ≢ y
cross pre n m hn hm ne x y (r, ex, tr) (s, ey, ts) e =
    let un = itoa hn.index in
    let um = itoa hm.index in
    let same : pre ++ (un ++ r) ≡ pre ++ (um ++ s) =
      sym (append_assoc pre un r)
      ∙ ap (λ l. l ++ r) (sym hn.spelled)
      ∙ sym ex
      ∙ e
      ∙ ey
      ∙ ap (λ l. l ++ s) hm.spelled
      ∙ append_assoc pre um s in
    let digits : un ≡ um =
      same_part un um r s (itoa-NoDot hn.index) (itoa-NoDot hm.index) tr ts
        (append-cancel pre (un ++ r) (um ++ s) same) in
    ne (hn.spelled ∙ ap (λ l. pre ++ l) digits ∙ sym hm.spelled)

abbrev pub Differ : NodeInfo → NodeInfo → Type 0
Differ m n = m.id ≢ n.id

apart_from :
    (pre : Text) (n : NodeInfo) (f : Nodes)
    → HasIndex pre n
    → IsNumbered pre f
    → All (λ m. n.id ≢ m.id) (generation f)
    → (x : NodeInfo) → Extends n.id x.id
    → All (Differ x) (walk f)
unfolding walk generation
apart_from pre n nil i h d x ex = tt
apart_from pre n (branch m children rest) i (j, c, e, h) (ne, d) x ex =
    All-append (Differ x) (m ∷ walk children) (walk rest)
      (All-map (λ y ey. cross pre n m i j ne x.id y.id ex ey) (m ∷ walk children)
        (own-Extends m children c))
      (apart_from pre n rest i h d x ex)

below_differs :
    (n : NodeInfo) (xs : List NodeInfo)
    → All (λ x. (r : Text) × (x.id ≡ (n.id ++ dot ∷ []) ++ r)) xs
    → All (Differ n) xs
below_differs n [] h = tt
below_differs n (x ∷ xs) ((r, e), h) = (
  λ same. absurd (
      omega (
        arith,
        ap length (same ∙ e),
        length-append (n.id ++ dot ∷ []) r,
        length-append n.id (dot ∷ []),
      )),
  below_differs n xs h,
)

pub IsNumbered-Pairwise : (pre : Text) (f : Nodes) → IsNumbered pre f → Pairwise Differ (walk f)
unfolding walk
IsNumbered-Pairwise pre nil h = tt
IsNumbered-Pairwise pre (branch n children rest) (i, c, d, h) =
    Pairwise-append Differ (n ∷ walk children) (walk rest)
      (
        below_differs n (walk children) (walk-prefix (n.id ++ dot ∷ []) children c),
        IsNumbered-Pairwise (n.id ++ dot ∷ []) children c,
      )
      (IsNumbered-Pairwise pre rest h)
      (All-map (λ x ex. apart_from pre n rest i h d x ex) (n ∷ walk children)
        (own-Extends n children c))
