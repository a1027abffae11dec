-- ===== src/Subagent/Ready/Indexed.antt =====
-- The pre-pass of Ready as a fold over the steps of the tree, and what it leaves in its two maps.
use mathlib.Core.List.{foldl, foldl-append}
use be_code_redux.Base.{
  List, [], ◌∷◌, Bool, true, false, Text, ◌==◌, nat_keyed, text_keyed, ◌≡◌, refl, sym, ap, ◌∙◌, ◌⊎◌,
  ◌≢◌, inl, inr, text_beq_iff, lookup-insert, arith, In, Bool-cases, All, some, Assoc,
  if◌then◌else◌, lookup, insert, Pairwise, eq_of_beq,
}
use be_code_redux.Subagent.Ready.{
  StepInfo, Step, Steps, step, nil, cons, Index, index_info, index_step, index_steps, is_closed,
  is_closed_status,
}
use be_code_redux.Subagent.Ready.Tops.{preorder, preorder_step}

abbrev pub DistinctIds : List StepInfo → Type 0
DistinctIds = Pairwise (λ s t. s.id ≢ t.id)

is_closed-insert :
    (j k : Text) (b : Bool) (m : Assoc Text Bool)
    → is_closed (insert j b m) k ≡ (if j == k then b else is_closed m k)
unfolding is_closed
is_closed-insert j k b m = ground (arith, lookup-insert j k b m)

is_closed-nil : (k : Text) → is_closed [] k ≡ false
unfolding is_closed lookup
is_closed-nil k = refl

module _ (running : Text → Bool) where
  abbrev scan : Index → StepInfo → Index
  scan x s = index_info running s x

  mutual
    unfolding index_step index_steps preorder preorder_step

    index_step-foldl :
        (t : Step) (x : Index) → index_step running t x ≡ foldl scan x (preorder_step t)
    index_step-foldl (step s children) x = index_steps-foldl children (index_info running s x)

    index_steps-foldl :
        (ts : Steps) (x : Index) → index_steps running ts x ≡ foldl scan x (preorder ts)
    index_steps-foldl nil x = refl
    index_steps-foldl (cons t rest) x =
        index_steps-foldl rest (index_step running t x)
        ∙ ap (λ y. foldl scan y (preorder rest)) (index_step-foldl t x)
        ∙ sym (foldl-append scan x (preorder_step t) (preorder rest))

  index_info-taken :
      (s : StepInfo) (x : Index) (k : Text)
      → k ≢ s.id
      → lookup k (index_info running s x).taken ≡ lookup k x.taken
  unfolding index_info
  index_info-taken s x k h =
      ground (arith, lookup-insert s.id k s.scope x.taken, text_beq_iff s.id k)

  index_info-running :
      (s : StepInfo) (x : Index)
      → running s.id ≡ true
      → lookup s.id (index_info running s x).taken ≡ some s.scope
  unfolding index_info
  index_info-running s x h =
      ground (arith, lookup-insert s.id s.id s.scope x.taken, text_beq_iff s.id s.id)

  index_info-closed :
      (s : StepInfo) (x : Index) (k : Text)
      → is_closed (index_info running s x).closed k ≡ true
      → (is_closed x.closed k ≡ true) ⊎ ((s.id ≡ k) × (is_closed_status s.status ≡ true))
  unfolding index_info
  index_info-closed s x k h =
      let q = is_closed-insert s.id k (is_closed_status s.status) x.closed in
      elim (Bool-cases (s.id == k)) [
        | inl e ↦ inr (eq_of_beq e, sym (q ∙ rw e refl) ∙ h)
        | inr e ↦ inl (sym (q ∙ rw e refl) ∙ h)
      ]

  -- A later step with another id leaves an entry of `taken` alone.
  foldl-taken :
      (ss : List StepInfo) (x : Index) (k : Text)
      → All (λ s. k ≢ s.id) ss
      → lookup k (foldl scan x ss).taken ≡ lookup k x.taken
  foldl-taken [] x k h = refl
  foldl-taken (s ∷ ss) x k (hs, h) = foldl-taken ss (scan x s) k h ∙ index_info-taken s x k hs

  -- The scope of every running step is taken.
  foldl-running :
      (ss : List StepInfo) (x : Index)
      → DistinctIds ss
      → All (λ s. running s.id ≡ true → lookup s.id (foldl scan x ss).taken ≡ some s.scope) ss
  foldl-running [] x h = tt
  foldl-running (s ∷ ss) x (hs, h) = (
    λ e. foldl-taken ss (scan x s) s.id hs ∙ index_info-running s x e,
    foldl-running ss (scan x s) h,
  )

  -- A step id reads as closed only if a step with that id is done or dropped.
  foldl-closed :
      (ss : List StepInfo) (x : Index) (k : Text)
      → is_closed (foldl scan x ss).closed k ≡ true
      → (is_closed x.closed k ≡ true)
        ⊎ ((s : StepInfo) × In s ss × (s.id ≡ k) × (is_closed_status s.status ≡ true))
  foldl-closed [] x k h = inl h
  foldl-closed (s ∷ ss) x k h = elim (foldl-closed ss (scan x s) k h) [
    | inr (t, m, e, c) ↦ inr (t, inr m, e, c)
    | inl now ↦ elim (index_info-closed s x k now) [
      | inl before ↦ inl before
      | inr (e, c) ↦ inr (s, inl refl, e, c)
    ]
  ]

abbrev pub no_steps : Index
no_steps = record { closed = []; taken = [] }

-- The two maps of Ready after its pre-pass.
pub index_steps-running :
    (running : Text → Bool) (roots : Steps)
    → DistinctIds (preorder roots)
    → All
        (λ s.
          running s.id ≡ true
          → lookup s.id (index_steps running roots no_steps).taken ≡ some s.scope)
        (preorder roots)
index_steps-running running roots h =
    rw (index_steps-foldl running roots no_steps)
      (foldl-running running (preorder roots) no_steps h)

pub index_steps-closed :
    (running : Text → Bool) (roots : Steps) (k : Text)
    → is_closed (index_steps running roots no_steps).closed k ≡ true
    → (s : StepInfo) × In s (preorder roots) × (s.id ≡ k) × (is_closed_status s.status ≡ true)
index_steps-closed running roots k h =
    elim (foldl-closed running (preorder roots) no_steps k
      (rw (index_steps-foldl running roots no_steps) at h)) [
        | inl e ↦ cc (is_closed-nil k)
        | inr found ↦ found
      ]
