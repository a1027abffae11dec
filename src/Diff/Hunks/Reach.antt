-- ===== src/Diff/Hunks/Reach.antt =====
-- How far a hunk reaches.
use be_code_redux.Base.{
  ℕ, suc, ◌+◌, ◌*◌, ◌≤◌, List, [], ◌∷◌, if◌then◌else◌, ltb, take, drop, All, Bool-cases, inl, inr,
  ◌≡◌, ◌≢◌, refl, sym, ap, ◌∙◌, subst, arith,
}
use be_code_redux.Diff.{Kind, kept, gone, added, Op}
use be_code_redux.Diff.Hunks.{last_change}
use be_code_redux.Diff.Hunks.Stretches.{IsKept}
use be_code_redux.Diff.Hunks.Parts.{drop-drop, All-take, All-take_all, All-take_suc}

-- How far the walk forward from a change goes: behind its end, at most `2 * context + 1` operations
-- on, there is no change.
module _ (all : List Op) (context : ℕ) where
  abbrev pub IsEnd : ℕ → Type 0
  IsEnd e = All IsKept (take (2 * context + 1) (drop (e + 1) all))

  -- The walk has come to `k`, and met `eq` kept operations behind `end`.
  record IsAt (ops : List Op) (k eq end : ℕ) : Type 0 where
    here : ops ≡ drop k all
    place : end + 1 + eq ≡ k
    behind : All IsKept (take eq (drop (end + 1) all))
    small : eq ≤ 2 * context

  abbrev IsReached : ℕ → ℕ → Type 0
  IsReached end e = (end ≤ e) × IsEnd e

  from_end : {ops : List Op} {k eq end : ℕ} → IsAt ops k eq end → drop eq (drop (end + 1) all) ≡ ops
  from_end {ops} {k} {eq} {end} at =
      drop-drop (end + 1) eq all ∙ ap (λ n. drop n all) at.place ∙ sym at.here

  after_op :
      {ops : List Op} {o : Op} {k eq end : ℕ} → IsAt (o ∷ ops) k eq end → ops ≡ drop (k + 1) all
  after_op {ops} {o} {k} at = ap (drop 1) at.here ∙ drop-drop k 1 all

  last_change-IsReached :
      (ops : List Op) (k eq end : ℕ)
      → IsAt ops k eq end
      → IsReached end (last_change context ops k eq end)
  unfolding last_change
  last_change-IsReached [] k eq end at = (
    omega arith,
    All-take IsKept (2 * context + 1) (drop (end + 1) all)
        (All-take_all IsKept eq (drop (end + 1) all) (from_end at) at.behind),
  )
  last_change-IsReached (o ∷ ops) k eq end at =
      go o.kind refl (last_change-IsReached ops (k + 1) (eq + 1) end) (
        last_change-IsReached ops (k + 1) 0 k
          (record { here = after_op at; place = omega arith; behind = tt; small = omega arith }))
    where
      further : ℕ
      further = last_change context ops (k + 1) (eq + 1) end

      changed : ℕ
      changed = last_change context ops (k + 1) 0 k

      one_more : o.kind ≡ kept → All IsKept (take (suc eq) (drop (end + 1) all))
      one_more e = All-take_suc IsKept eq (drop (end + 1) all) ops o (from_end at) e at.behind

      go :
          (kind : Kind)
          → o.kind ≡ kind
          → (IsAt ops (k + 1) (eq + 1) end → IsReached end further)
          → IsReached k changed
          → IsReached end (elim kind [
            | kept ↦ if ltb (2 * context) (eq + 1) then end else further
            | gone ↦ changed
            | added ↦ changed
          ])
      go kept e next_kept next_changed = elim (Bool-cases (ltb (2 * context) (eq + 1))) [
        | inl far ↦
            let full : suc eq ≡ 2 * context + 1 = ground (arith, at.small) in
            rw far
              (omega arith, subst (λ n. All IsKept (take n (drop (end + 1) all))) full (one_more e))
        | inr near ↦
            let next : suc eq ≡ eq + 1 = omega arith in
            rw near (
              next_kept (record {
                here = after_op at;
                place = omega (arith, at.place);
                behind = subst (λ n. All IsKept (take n (drop (end + 1) all))) next (one_more e);
                small = ground arith;
              }))
      ]
      go gone e next_kept (le, reached) = (omega (arith, le, at.place), reached)
      go added e next_kept (le, reached) = (omega (arith, le, at.place), reached)

  -- From a change at `i`.
  pub last_change-IsEnd :
      (i : ℕ) (o : Op) (ops : List Op)
      → drop i all ≡ o ∷ ops
      → o.kind ≢ kept
      → (i ≤ last_change context (drop i all) i 0 i)
        × IsEnd (last_change context (drop i all) i 0 i)
  unfolding last_change
  last_change-IsEnd i o ops e change = rw e (go o.kind refl)
    where
      rest : ops ≡ drop (i + 1) all
      rest = ap (drop 1) (sym e) ∙ drop-drop i 1 all

      onward : IsReached i (last_change context ops (i + 1) 0 i)
      onward =
          last_change-IsReached ops (i + 1) 0 i
            (record { here = rest; place = omega arith; behind = tt; small = omega arith })

      go :
          (kind : Kind)
          → o.kind ≡ kind
          → IsReached i (elim kind [
            | kept ↦
                if ltb (2 * context) (0 + 1) then i else last_change context ops (i + 1) (0 + 1) i
            | gone ↦ last_change context ops (i + 1) 0 i
            | added ↦ last_change context ops (i + 1) 0 i
          ])
      go kept k = absurd (change k)
      go gone k = onward
      go added k = onward
