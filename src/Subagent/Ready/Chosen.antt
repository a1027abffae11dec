-- ===== src/Subagent/Ready/Chosen.antt =====
-- What the reasons of Ready rule out, for one candidate.
use be_code_redux.Base.{
  List, [], ◌∷◌, Bool, true, false, Text, codes, nat_keyed, text_keyed, ◌≡◌, refl, ◌⊎◌, ◌≢◌, inl,
  inr, arith, Option-cases, All-map, All, Option, none, some, Assoc, eq_of_beq,
}
use be_code_redux.Subagent.Scope.{within, overlap}
use be_code_redux.Subagent.Ready.{
  Card, StepInfo, Scopes, Reason, is_closed, card_reason, overlap_reason, after_reason,
  sibling_reason, order_reason, reason_for, or_else,
}

-- The co-worker may be given the step.
pub record IsAllowed (cards : Text → Option Card) (s : StepInfo) : Type 0 where
  pub card : Card
  pub known : cards s.owner ≡ some card
  pub is_sub_agent : card.sub_agent ≡ true
  pub scoped : s.scope ≢ []
  pub inside : within s.scope card.max_scope ≡ true
  pub is_todo : s.status ≡ codes "todo"

-- The steps that it waits for are closed, as `C` says of an id: those it names, or the siblings in
-- front that are no job.
abbrev pub MayStart : (Text → Type 0) → StepInfo → List StepInfo → Type 0
MayStart C s earlier =
    ((s.after ≢ []) × All C s.after) ⊎ ((s.after ≡ []) × All (λ t. C t.id ⊎ (t.job ≡ true)) earlier)

abbrev pub ReadsClosed : Assoc Text Bool → Text → Type 0
ReadsClosed closed k = is_closed closed k ≡ true

pub MayStart-map :
    (C D : Text → Type 0) (s : StepInfo) (earlier : List StepInfo)
    → ((k : Text) → C k → D k)
    → MayStart C s earlier
    → MayStart D s earlier
MayStart-map C D s earlier f (inl (e, h)) = inl (e, All-map f s.after h)
MayStart-map C D s earlier f (inr (e, h)) = inr (e, All-map sibling earlier h)
  where
    sibling : (t : StepInfo) → C t.id ⊎ (t.job ≡ true) → D t.id ⊎ (t.job ≡ true)
    sibling t (inl c) = inl (f t.id c)
    sibling t (inr j) = inr j

card_reason-IsAllowed :
    (cards : Text → Option Card) (s : StepInfo) → card_reason cards s ≡ none → IsAllowed cards s
unfolding card_reason
card_reason-IsAllowed cards s h = elim (Option-cases (cards s.owner)) [
  | inl e ↦ absurd (ground arith)
  | inr (card, e) ↦ record {
    card = card;
    known = e;
    is_sub_agent = ground arith;
    scoped = ground arith;
    inside = ground arith;
    is_todo = eq_of_beq (ground arith);
  }
]

pub overlap_reason-none :
    (scope : List Text) (m : Scopes)
    → overlap_reason scope m ≡ none
    → All (λ e. overlap scope (e.1) ≡ false) m
unfolding overlap_reason
overlap_reason-none scope [] h = tt
overlap_reason-none scope ((id, sc) ∷ m) h = ground (arith, overlap_reason-none scope m)

after_reason-none :
    (closed : Assoc Text Bool) (deps : List Text)
    → after_reason closed deps ≡ none
    → All (λ dep. is_closed closed dep ≡ true) deps
unfolding after_reason
after_reason-none closed [] h = tt
after_reason-none closed (d ∷ ds) h = ground (arith, after_reason-none closed ds)

sibling_reason-none :
    (closed : Assoc Text Bool) (ss : List StepInfo)
    → sibling_reason closed ss ≡ none
    → All (λ t. (is_closed closed t.id ≡ true) ⊎ (t.job ≡ true)) ss
unfolding sibling_reason
sibling_reason-none closed [] h = tt
sibling_reason-none closed (s ∷ ss) h = ground (arith, sibling_reason-none closed ss)

order_reason-MayStart :
    (closed : Assoc Text Bool) (s : StepInfo) (earlier : List StepInfo)
    → order_reason closed s earlier ≡ none
    → MayStart (ReadsClosed closed) s earlier
unfolding order_reason
order_reason-MayStart closed s earlier h = go s.after refl
  where
    go : (deps : List Text) → s.after ≡ deps → MayStart (ReadsClosed closed) s earlier
    go [] e = inr (e, sibling_reason-none closed earlier (ground arith))
    go (d ∷ ds) e = inl (ground arith, rw e (after_reason-none closed (d ∷ ds) (ground arith)))

or_else-none : (a b : Option Reason) → or_else a b ≡ none → (a ≡ none) × (b ≡ none)
unfolding or_else
or_else-none a b h = ground arith

module _ (cards : Text → Option Card) (running : Text → Bool) (range : Scopes → Scopes)
    (closed : Assoc Text Bool) where
  -- A candidate with no reason to wait.
  pub reason_for-none :
      (s : StepInfo) (earlier : List StepInfo) (taken : Scopes)
      → reason_for cards running range closed s earlier taken ≡ none
      → IsAllowed cards s
        × All (λ e. overlap s.scope (e.1) ≡ false) (range taken)
        × MayStart (ReadsClosed closed) s earlier
  unfolding reason_for
  reason_for-none s earlier taken h =
      let (card, rest) = or_else-none (card_reason cards s) _ h in
      let (free, order) = or_else-none (overlap_reason s.scope (range taken)) _ rest in
      (
        card_reason-IsAllowed cards s card,
        overlap_reason-none s.scope (range taken) free,
        order_reason-MayStart closed s earlier order,
      )
