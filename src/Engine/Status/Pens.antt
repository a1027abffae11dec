-- ===== src/Engine/Status/Pens.antt =====
-- Pens: where dispatched subtrees do not nest, an id lies in at most one of them.
use mathlib.Core.List.{foldl}
use be_code_redux.Base.{
  ◌≤◌, List, [], ◌∷◌, true, false, ◌&&◌, Text, text_keyed, nat_keyed, ltb, length, ◌≡◌, ◌≢◌, refl,
  sym, ap, ◌∙◌, subst, arith, All, In, All-In, ◌⊎◌, inl, inr, Bool-cases,
}
use be_code_redux.Paths.Under.{under, under_lem, under_total}
use be_code_redux.Engine.Tree.{dot}
use be_code_redux.Engine.Status.{in_subtree, inner_pen, pen_of}

-- No dispatched root lies in the subtree of another.
abbrev pub Unnested : List Text → Type 0
Unnested d = All (λ r. (r ≢ []) × All (λ q. in_subtree q r ≡ true → q ≡ r) d) d

pub in_subtree_unique :
    (d : List Text) (id r q : Text)
    → Unnested d
    → In r d
    → In q d
    → in_subtree id r ≡ true
    → in_subtree id q ≡ true
    → r ≡ q
in_subtree_unique d id r q u mr mq hr hq =
    let er : under dot r id ≡ true = sym (under_lem dot id r) ∙ hr in
    let eq : under dot q id ≡ true = sym (under_lem dot id q) ∙ hq in
    elim (under_total dot r q id er eq) [
      | inl h ↦ sym (
          All-In (λ p. in_subtree p r ≡ true → p ≡ r) q d
            (All-In (λ r. (r ≢ []) × All (λ q. in_subtree q r ≡ true → q ≡ r) d) r d u mr).1 mq
            (under_lem dot q r ∙ h))
      | inr h ↦
          All-In (λ p. in_subtree p q ≡ true → p ≡ q) r d
            (All-In (λ r. (r ≢ []) × All (λ q. in_subtree q r ≡ true → q ≡ r) d) q d u mq).1 mr
            (under_lem dot r q ∙ h)
    ]

inner_pen-cases :
    (id best r : Text)
    → (inner_pen id best r ≡ best) ⊎ ((inner_pen id best r ≡ r) × (in_subtree id r ≡ true))
inner_pen-cases id best r = elim (Bool-cases (in_subtree id r && ltb (length best) (length r))) [
  | inl e ↦ inr (rw e refl, ground arith)
  | inr e ↦ inl (rw e refl)
]

-- What the loop of penOf has found: its start, or a root that holds the id.
pen_from :
    (id : Text) (d : List Text) (best : Text)
    → (foldl (inner_pen id) best d ≡ best)
      ⊎ (In (foldl (inner_pen id) best d) d × (in_subtree id (foldl (inner_pen id) best d) ≡ true))
pen_from id [] best = inl refl
pen_from id (r ∷ d) best = elim (pen_from id d (inner_pen id best r)) [
  | inr (m, h) ↦ inr (inr m, h)
  | inl k ↦ elim (inner_pen-cases id best r) [
    | inl e ↦ inl (k ∙ e)
    | inr (e, h) ↦ inr (inl (sym (k ∙ e)), subst (λ y. in_subtree id y ≡ true) (sym (k ∙ e)) h)
  ]
]

grows :
    (id : Text) (d : List Text) (best : Text) → length best ≤ length (foldl (inner_pen id) best d)
grows id [] best = omega arith
grows id (r ∷ d) best =
    let kept : length best ≤ length (inner_pen id best r) = ground arith in
    omega (arith, kept, grows id d (inner_pen id best r))

longest :
    (id : Text) (d : List Text) (best r : Text)
    → In r d
    → in_subtree id r ≡ true
    → length r ≤ length (foldl (inner_pen id) best d)
longest id [] best r m h = absurd m
longest id (q ∷ d) best r (inl e) h =
    let kept : length r ≤ length (inner_pen id best q) = ground arith in
    omega (arith, kept, grows id d (inner_pen id best q))
longest id (q ∷ d) best r (inr m) h = longest id d (inner_pen id best q) r m h

-- The pen of an id is nothing, or a dispatched root around it.
pub pen_of-cases :
    (d : List Text) (id : Text)
    → (pen_of d id ≡ []) ⊎ (In (pen_of d id) d × (in_subtree id (pen_of d id) ≡ true))
unfolding pen_of
pen_of-cases d id = pen_from id d []

-- An id with no pen is below no dispatched root.
pub pen_of-nil :
    (d : List Text) (id r : Text) → pen_of d id ≡ [] → In r d → r ≢ [] → in_subtree id r ≡ false
unfolding pen_of
pen_of-nil d id r e m ne = elim (Bool-cases (in_subtree id r)) [
  | inr k ↦ k
  | inl k ↦ absurd (ne (empty r (omega (arith, longest id d [] r m k, ap length e))))
]
  where
    empty : (l : Text) → length l ≤ 0 → l ≡ []
    empty [] h = refl
    empty (c ∷ l) h = absurd (omega arith)
