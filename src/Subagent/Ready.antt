-- ===== src/Subagent/Ready.antt =====
-- internal/subagent/ready.go, with the records of records.go that it reads. A Go map that is only
-- read is a function. Go visits the entries of a map in no fixed order: the order in which the
-- overlap test reads `taken` is the parameter `range`.
pub mod Tops
pub mod Indexed
pub mod Chosen
pub mod Disjoint
pub mod Partition
use be_code_redux.Base.{
  List, [], ◌∷◌, ◌++◌, Bool, true, false, ◌&&◌, ◌||◌, not, Text, codes, ◌==◌, nat_keyed, text_keyed,
  if◌then◌else◌, Option, none, some, Assoc, lookup, insert, map,
}
use be_code_redux.Subagent.Scope.{within, overlap}

pub record Card : Type 0 where
  pub name : Text
  pub provider : Text
  pub server : Text
  pub online : Bool
  pub sub_agent : Bool
  pub max_scope : List Text

-- The fields of a Step but for its children.
pub record StepInfo : Type 0 where
  pub id : Text
  pub text : Text
  pub status : Text
  pub owner : Text
  pub scope : List Text
  pub after : List Text
  pub job : Bool
  pub interrupted : Bool
  pub touched : List Text

mutual
  pub data Step : Type 0 where
    step : StepInfo → Steps → Step

  pub data Steps : Type 0 where
    nil : Steps
    cons : Step → Steps → Steps

unfoldable pub info : Step → StepInfo
info (step s children) = s

abbrev pub is_empty : List Text → Bool
is_empty [] = true
is_empty (x ∷ xs) = false

-- Why a candidate waits; the Go field is the sentence, "" if the candidate is ready.
pub data Reason : Type 0 where
  not_coworker not_sub_agent status_is overlaps waiting_for : Text → Reason
  no_scope : Reason
  outside : Text → List Text → Reason

pub record Candidate : Type 0 where
  pub id : Text
  pub owner : Text
  pub reason : Option Reason

abbrev pub Scopes : Type 0
Scopes = Assoc Text (List Text)

abbrev pub candidate : StepInfo → Option Reason → Candidate
candidate s r = record { id = s.id; owner = s.owner; reason = r }

-- What the pre-pass `index` writes.
pub record Index : Type 0 where
  pub closed : Assoc Text Bool
  pub taken : Scopes

abbrev pub is_closed_status : Text → Bool
is_closed_status s = s == codes "done" || s == codes "dropped"

unfoldable pub index_info : (Text → Bool) → StepInfo → Index → Index
index_info running s x = record {
  closed = insert s.id (is_closed_status s.status) x.closed;
  taken = if running s.id then insert s.id s.scope x.taken else x.taken;
}

unfoldable mutual
  pub index_step : (Text → Bool) → Step → Index → Index
  index_step running (step s children) x = index_steps running children (index_info running s x)

  pub index_steps : (Text → Bool) → Steps → Index → Index
  index_steps running nil x = x
  index_steps running (cons s rest) x = index_steps running rest (index_step running s x)

-- A read of the map `closed`: false where there is no entry.
unfoldable pub is_closed : Assoc Text Bool → Text → Bool
is_closed closed k = elim (lookup k closed) [ none ↦ false | some b ↦ b ]

or_else : Option Reason → Option Reason → Option Reason
or_else (some r) next = some r
or_else none next = next

-- The switch over the step's card.
unfoldable pub card_reason : (Text → Option Card) → StepInfo → Option Reason
card_reason cards s = elim (cards s.owner) [
  | none ↦ some (not_coworker s.owner)
  | some card ↦
      if not card.sub_agent
      then some (not_sub_agent s.owner)
      else if is_empty s.scope
      then some no_scope
      else if not (within s.scope card.max_scope)
      then some (outside s.owner card.max_scope)
      else if not (s.status == codes "todo")
      then some (status_is s.status)
      else none
]

-- The loop over `taken`.
unfoldable pub overlap_reason : List Text → Scopes → Option Reason
overlap_reason scope [] = none
overlap_reason scope ((id, sc) ∷ m) =
    if overlap scope sc then some (overlaps id) else overlap_reason scope m

-- The loop over the explicit dependencies.
unfoldable pub after_reason : Assoc Text Bool → List Text → Option Reason
after_reason closed [] = none
after_reason closed (dep ∷ deps) =
    if is_closed closed dep then after_reason closed deps else some (waiting_for dep)

-- The loop over the siblings in front.
unfoldable pub sibling_reason : Assoc Text Bool → List StepInfo → Option Reason
sibling_reason closed [] = none
sibling_reason closed (s ∷ ss) =
    if not (is_closed closed s.id) && not s.job
    then some (waiting_for s.id)
    else sibling_reason closed ss

unfoldable pub order_reason : Assoc Text Bool → StepInfo → List StepInfo → Option Reason
order_reason closed s earlier =
    if is_empty s.after then sibling_reason closed earlier else after_reason closed s.after

-- The state of the walk.
pub record Sweep : Type 0 where
  pub taken : Scopes
  pub ready : List Candidate
  pub waiting : List Candidate

-- The guard in front of the decision.
unfoldable pub is_candidate : Assoc Text Bool → StepInfo → Bool
is_candidate closed s =
    not (s.owner == []) && not (is_closed closed s.id) && not (s.status == codes "blocked")

module _ (cards : Text → Option Card) (running : Text → Bool) (range : Scopes → Scopes)
    (closed : Assoc Text Bool) where
  unfoldable pub reason_for : StepInfo → List StepInfo → Scopes → Option Reason
  unfolding or_else
  reason_for s earlier taken =
      or_else (card_reason cards s)
        (or_else (overlap_reason s.scope (range taken)) (order_reason closed s earlier))

  -- A candidate that does not run yet: ready, and then its scope is taken, or waiting.
  unfoldable pub decide_step : StepInfo → List StepInfo → Sweep → Sweep
  decide_step s earlier w = elim (reason_for s earlier w.taken) [
    | none ↦ record w {
      taken = insert s.id s.scope w.taken;
      ready = w.ready ++ candidate s none ∷ [];
    }
    | some r ↦ record w { waiting = w.waiting ++ candidate s (some r) ∷ [] }
  ]

  unfoldable pub consider : StepInfo → List StepInfo → Sweep → Sweep
  consider s earlier w =
      if is_candidate closed s then if running s.id then w else decide_step s earlier w else w

  -- `inherited` is the owner of the parent.
  unfoldable mutual
    pub walk_step : Step → List StepInfo → Text → Sweep → Sweep
    walk_step (step s children) earlier inherited w =
        let below = walk_steps children [] s.owner (consider s earlier w) in
        if s.job then w else if not (inherited == []) then w else below

    pub walk_steps : Steps → List StepInfo → Text → Sweep → Sweep
    walk_steps nil earlier inherited w = w
    walk_steps (cons s rest) earlier inherited w =
        walk_steps rest (earlier ++ info s ∷ []) inherited (walk_step s earlier inherited w)

-- Ready: the candidates that may be dispatched, and those that wait.
unfoldable pub ready : (Text → Option Card) → (Text → Bool) → (Scopes → Scopes) → Steps → Sweep
ready cards running range roots =
    let x = index_steps running roots (record { closed = []; taken = [] }) in
    walk_steps cards running range x.closed roots [] []
      (record { taken = x.taken; ready = []; waiting = [] })
