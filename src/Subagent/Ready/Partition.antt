-- ===== src/Subagent/Ready/Partition.antt =====
-- The two lists of Ready (internal/subagent/ready.go) as one list of verdicts.
use mathlib.Core.List.{foldl}
use be_code_redux.Base.{
  List, [], ◌∷◌, ◌++◌, Bool, true, false, Text, nat_keyed, text_keyed, ◌≡◌, refl, sym, ap, ◌∙◌, inl,
  inr, append-nil, append_assoc, arith, Bool-cases, Option-cases, Option, none, some, Assoc,
  if◌then◌else◌,
}
use be_code_redux.Subagent.Ready.{
  Card, Steps, Scopes, Sweep, Candidate, reason_for, decide_step, candidate, ready, index_steps,
}
use be_code_redux.Subagent.Ready.Tops.{Top, tops_steps, visit, walk_steps-foldl}
use be_code_redux.Subagent.Ready.Indexed.{no_steps}

-- The candidates with a reason to wait, or those with none.
abbrev pub with_reason : Bool → List Candidate → List Candidate
with_reason b [] = []
with_reason b (c ∷ cs) = elim c.reason [
  | none ↦ if b then with_reason b cs else c ∷ with_reason b cs
  | some r ↦ if b then c ∷ with_reason b cs else with_reason b cs
]

-- The id and the owner that a candidate shows.
abbrev pub names : List Candidate → List (Text × Text)
names [] = []
names (c ∷ cs) = (c.id, c.owner) ∷ names cs

abbrev pub idle_names : (Text → Bool) → List Top → List (Text × Text)
idle_names running [] = []
idle_names running ((s, _) ∷ l) =
    if running s.id then idle_names running l else (s.id, s.owner) ∷ idle_names running l

with_reason-append :
    (b : Bool) (cs ds : List Candidate)
    → with_reason b (cs ++ ds) ≡ with_reason b cs ++ with_reason b ds
with_reason-append b [] ds = refl
with_reason-append b (c ∷ cs) ds = ground (arith, with_reason-append b cs ds)

names-append : (cs ds : List Candidate) → names (cs ++ ds) ≡ names cs ++ names ds
names-append [] ds = refl
names-append (c ∷ cs) ds = ap (λ n. (c.id, c.owner) ∷ n) (names-append cs ds)

idle_names-cons :
    (running : Text → Bool) (t : Top) (l : List Top)
    → idle_names running (t ∷ l) ≡ idle_names running (t ∷ []) ++ idle_names running l
idle_names-cons running (s, _) l = ground arith

module _ (cards : Text → Option Card) (running : Text → Bool) (range : Scopes → Scopes)
    (closed : Assoc Text Bool) where
  -- The verdicts of a walk, in order, account for both lists.
  record Verdicts (w v : Sweep) (l : List Top) (trace : List Candidate) : Type 0 where
    to_ready : v.ready ≡ w.ready ++ with_reason false trace
    to_waiting : v.waiting ≡ w.waiting ++ with_reason true trace
    of_all : names trace ≡ idle_names running l

  visit-Verdicts :
      (w : Sweep) (t : Top)
      → (trace : List Candidate) × Verdicts w (visit cards running range closed w t) (t ∷ []) trace
  unfolding visit decide_step
  visit-Verdicts w (s, earlier) = elim (Bool-cases (running s.id)) [
    | inl e ↦ (
      [],
      record {
        to_ready = ground (arith, append-nil w.ready);
        to_waiting = ground (arith, append-nil w.waiting);
        of_all = ground arith;
      },
    )
    | inr idle ↦ elim (Option-cases (reason_for cards running range closed s earlier w.taken)) [
      | inl go ↦ (
        candidate s none ∷ [],
        record {
          to_ready = ground arith;
          to_waiting = ground (arith, append-nil w.waiting);
          of_all = ground arith;
        },
      )
      | inr (r, e) ↦ (
        candidate s (some r) ∷ [],
        record {
          to_ready = ground (arith, append-nil w.ready);
          to_waiting = ground arith;
          of_all = ground arith;
        },
      )
    ]
  ]

  foldl-Verdicts :
      (w : Sweep) (l : List Top)
      → (trace : List Candidate) × Verdicts w (foldl (visit cards running range closed) w l) l trace
  foldl-Verdicts w [] = (
    [],
    record {
      to_ready = sym (append-nil w.ready);
      to_waiting = sym (append-nil w.waiting);
      of_all = refl;
    },
  )
  foldl-Verdicts w (t ∷ l) =
      let (one, v) = visit-Verdicts w t in
      let (rest, v') = foldl-Verdicts (visit cards running range closed w t) l in
      (
        one ++ rest,
        record {
          to_ready =
              v'.to_ready
              ∙ ap (λ r. r ++ with_reason false rest) v.to_ready
              ∙ append_assoc w.ready (with_reason false one) (with_reason false rest)
              ∙ ap (λ r. w.ready ++ r) (sym (with_reason-append false one rest));
          to_waiting =
              v'.to_waiting
              ∙ ap (λ r. r ++ with_reason true rest) v.to_waiting
              ∙ append_assoc w.waiting (with_reason true one) (with_reason true rest)
              ∙ ap (λ r. w.waiting ++ r) (sym (with_reason-append true one rest));
          of_all =
              names-append one rest
              ∙ ap (λ n. n ++ names rest) v.of_all
              ∙ ap (λ n. idle_names running (t ∷ []) ++ n) v'.of_all
              ∙ sym (idle_names-cons running t l);
        },
      )

-- The verdicts, one for each candidate that does not run, in document order: the ready list is
-- those with no reason, the waiting list those with one.
pub ready-partition :
    (cards : Text → Option Card) (running : Text → Bool) (range : Scopes → Scopes) (roots : Steps)
    → (trace : List Candidate) × ((ready cards running range roots).ready ≡ with_reason false trace)
      × ((ready cards running range roots).waiting ≡ with_reason true trace)
      × (names trace
          ≡ idle_names running (tops_steps (index_steps running roots no_steps).closed roots [] []))
unfolding ready
ready-partition cards running range roots =
    let x = index_steps running roots no_steps in
    let w : Sweep = record { taken = x.taken; ready = []; waiting = [] } in
    let (trace, v) =
      foldl-Verdicts cards running range x.closed w (tops_steps x.closed roots [] []) in
    (
      trace,
      rw (walk_steps-foldl cards running range x.closed roots [] [] w) v.to_ready,
      rw (walk_steps-foldl cards running range x.closed roots [] [] w) v.to_waiting,
      v.of_all,
    )
