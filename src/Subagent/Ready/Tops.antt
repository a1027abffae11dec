-- ===== src/Subagent/Ready/Tops.antt =====
-- The walk of Ready, flattened: it visits the candidates of the tree one after the other.
use mathlib.Core.List.{foldl, foldl-append, Sublistᴰ}
use be_code_redux.Base.{
  List, [], ◌∷◌, ◌++◌, Bool, ◌||◌, not, Text, ◌==◌, nat_keyed, text_keyed, ◌≡◌, refl, sym, ap, ◌∙◌,
  inl, inr, arith, Bool-cases, Option, Assoc, if◌then◌else◌, Sublistᴰ-append, Sublistᴰ-nil,
}
use be_code_redux.Subagent.Ready.{
  Card, StepInfo, Step, Steps, step, nil, cons, info, Scopes, Sweep, is_candidate, decide_step,
  consider, walk_step, walk_steps,
}

-- A candidate and the siblings in front of it.
abbrev pub Top : Type 0
Top = StepInfo × List StepInfo

unfoldable mutual
  -- The unowned part of the tree is searched; below an owned step nothing is a candidate.
  pub tops_step : Assoc Text Bool → Step → List StepInfo → Text → List Top
  tops_step closed (step s children) earlier inherited =
      let below = tops_steps closed children [] s.owner in
      let here = if is_candidate closed s then (s, earlier) ∷ [] else [] in
      if s.job || not (inherited == []) then [] else here ++ below

  pub tops_steps : Assoc Text Bool → Steps → List StepInfo → Text → List Top
  tops_steps closed nil earlier inherited = []
  tops_steps closed (cons s rest) earlier inherited =
      tops_step closed s earlier inherited
      ++ tops_steps closed rest (earlier ++ info s ∷ []) inherited

unfoldable mutual
  -- All steps, parents first, in document order.
  pub preorder_step : Step → List StepInfo
  preorder_step (step s children) = s ∷ preorder children

  pub preorder : Steps → List StepInfo
  preorder nil = []
  preorder (cons s rest) = preorder_step s ++ preorder rest

module _ (cards : Text → Option Card) (running : Text → Bool) (range : Scopes → Scopes)
    (closed : Assoc Text Bool) where
  unfoldable pub visit : Sweep → Top → Sweep
  visit w (s, earlier) =
      if running s.id then w else decide_step cards running range closed s earlier w

  -- The walk over a tree is a fold over its candidates.
  mutual
    unfolding walk_step walk_steps tops_step tops_steps consider visit

    walk_step-foldl :
        (t : Step) (earlier : List StepInfo) (inherited : Text) (w : Sweep)
        → walk_step cards running range closed t earlier inherited w
          ≡ foldl visit w (tops_step closed t earlier inherited)
    walk_step-foldl (step s children) earlier inherited w = ground (
      arith,
      walk_steps-foldl children [] s.owner (consider cards running range closed s earlier w),
    )

    pub walk_steps-foldl :
        (ts : Steps) (earlier : List StepInfo) (inherited : Text) (w : Sweep)
        → walk_steps cards running range closed ts earlier inherited w
          ≡ foldl visit w (tops_steps closed ts earlier inherited)
    walk_steps-foldl nil earlier inherited w = refl
    walk_steps-foldl (cons s rest) earlier inherited w =
        walk_steps-foldl rest (earlier ++ info s ∷ []) inherited _
        ∙ ap (λ v. foldl visit v (tops_steps closed rest (earlier ++ info s ∷ []) inherited))
            (walk_step-foldl s earlier inherited w)
        ∙ sym (foldl-append visit w (tops_step closed s earlier inherited) _)

abbrev pub infos : List Top → List StepInfo
infos [] = []
infos ((s, _) ∷ ts) = s ∷ infos ts

pub infos-append : (xs ys : List Top) → infos (xs ++ ys) ≡ infos xs ++ infos ys
infos-append [] ys = refl
infos-append ((s, _) ∷ xs) ys = ap (λ l. s ∷ l) (infos-append xs ys)

-- The candidates of a tree stand in its preorder, each at a place of its own.
mutual
  unfolding tops_step tops_steps preorder preorder_step

  infos-tops_step :
      (closed : Assoc Text Bool) (t : Step) (earlier : List StepInfo) (inherited : Text)
      → Sublistᴰ (infos (tops_step closed t earlier inherited)) (preorder_step t)
  infos-tops_step closed (step s children) earlier inherited =
      elim (Bool-cases (s.job || not (inherited == []))) [
        | inl e ↦ rw e (Sublistᴰ-nil (s ∷ preorder children))
        | inr e ↦ rw e (elim (Bool-cases (is_candidate closed s)) [
          | inl c ↦ rw c (Sublistᴰ.cons-cons refl (infos-tops_steps closed children [] s.owner))
          | inr c ↦ rw c (Sublistᴰ.cons (infos-tops_steps closed children [] s.owner))
        ])
      ]

  pub infos-tops_steps :
      (closed : Assoc Text Bool) (ts : Steps) (earlier : List StepInfo) (inherited : Text)
      → Sublistᴰ (infos (tops_steps closed ts earlier inherited)) (preorder ts)
  infos-tops_steps closed nil earlier inherited = Sublistᴰ.slnil
  infos-tops_steps closed (cons t rest) earlier inherited =
      rw (infos-append (tops_step closed t earlier inherited) _) (
        Sublistᴰ-append (infos-tops_step closed t earlier inherited)
          (infos-tops_steps closed rest (earlier ++ info t ∷ []) inherited))
