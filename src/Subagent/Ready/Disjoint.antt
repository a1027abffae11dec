-- ===== src/Subagent/Ready/Disjoint.antt =====
-- What Ready promises of the candidates that it calls ready: invariants of its walk.
use mathlib.Core.List.{Sublistᴰ}
use be_code_redux.Base.{
  List, [], ◌∷◌, ◌++◌, Bool, true, false, Text, nat_keyed, text_keyed, ◌≡◌, ◌≢◌, map, In, All,
  Option, none, some, Assoc, lookup, insert, Pairwise,
}
use be_code_redux.Subagent.Scope.{overlap}
use be_code_redux.Subagent.Ready.{
  Card, StepInfo, Steps, Scopes, Sweep, Candidate, Reason, candidate, ready, is_closed_status,
}
use be_code_redux.Subagent.Ready.Tops.{Top, infos, preorder}
use be_code_redux.Subagent.Ready.Chosen.{IsAllowed, MayStart, ReadsClosed}

-- Reading a Go map in any order still reads every entry.
abbrev pub ReadsAll : (Scopes → Scopes) → Type 0
ReadsAll range = (m : Scopes) (e : Text × List Text) → In e m → In e (range m)

abbrev pub Apart : StepInfo → StepInfo → Type 0
Apart s t = overlap t.scope s.scope ≡ false

-- Each of these steps holds its scope in `taken`.
abbrev Held : Scopes → List StepInfo → Type 0
Held taken = All (λ s. lookup s.id taken ≡ some s.scope)

module _ (cards : Text → Option Card) (running : Text → Bool) (range : Scopes → Scopes)
    (closed : Assoc Text Bool) (reads : ReadsAll range) (roots : List StepInfo) where
  abbrev IsRunning : StepInfo → Type 0
  IsRunning s = running s.id ≡ true

  -- `cs` are the candidates chosen so far.
  record Inv (w : Sweep) (cs : List Top) : Type 0 where
    listed : w.ready ≡ map (λ t. candidate t.0 none) cs
    held : Held w.taken (infos cs)
    busy : All (λ s. IsRunning s → lookup s.id w.taken ≡ some s.scope) roots
    apart : Pairwise Apart (infos cs)
    free : All (λ c. All (λ s. IsRunning s → Apart s c) roots) (infos cs)
    allowed : All (λ t. IsAllowed cards t.0 × MayStart (ReadsClosed closed) t.0 t.1) cs
    idle : All (λ c. running c.id ≡ false) (infos cs)

  abbrev chosen : StepInfo → Sweep → Sweep
  chosen s w = record w {
    taken = insert s.id s.scope w.taken;
    ready = w.ready ++ candidate s none ∷ [];
  }

  abbrev refused : StepInfo → Reason → Sweep → Sweep
  refused s r w = record w { waiting = w.waiting ++ candidate s (some r) ∷ [] }

  -- No id of the chosen ones comes again.
  abbrev Fresh : List Top → List Top → Type 0
  Fresh cs l = All (λ t. All (λ c. c.id ≢ t.id) (infos cs)) (infos l)

-- A step of the tree with this id is done or dropped.
abbrev pub IsClosedIn : Steps → Text → Type 0
IsClosedIn roots k =
    (s : StepInfo) × In s (preorder roots) × (s.id ≡ k) × (is_closed_status s.status ≡ true)

-- The steps `cs`, with the siblings in front of each, stand for a list of ready candidates.
pub record IsDispatch (cards : Text → Option Card) (running : Text → Bool) (roots : Steps)
    (list : List Candidate) (cs : List Top) : Type 0 where
  -- the list names them, in order
  pub listed : list ≡ map (λ t. candidate t.0 none) cs
  -- they stand in the tree, each at a place of its own
  pub placed : Sublistᴰ (infos cs) (preorder roots)
  -- their scopes do not overlap one another's
  pub apart : Pairwise Apart (infos cs)
  -- nor that of any running step, wherever it stands
  pub free : All (λ c. All (λ s. running s.id ≡ true → Apart s c) (preorder roots)) (infos cs)
  -- each may go to its owner, and what it waits for is closed
  pub allowed : All (λ t. IsAllowed cards t.0 × MayStart (IsClosedIn roots) t.0 t.1) cs
  pub idle : All (λ c. running c.id ≡ false) (infos cs)
