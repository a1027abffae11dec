-- ===== src/Subagent/Tests.antt =====
-- Small runs of the scope tests and of Ready, and the theorems at these inputs.
use be_code_redux.Base.{
  List, [], ◌∷◌, Bool, true, false, Text, codes, ◌==◌, nat_keyed, text_keyed, ◌≡◌, refl, ◌↔◌, arith,
  All, ok, err, Option, none, some, if◌then◌else◌, length, lookup, insert,
}
use be_code_redux.Paths.{join, clean, trim_space, climbs}
use be_code_redux.Paths.Names.{IsInside}
use be_code_redux.Subagent.Scope.{
  clean_scope, clean_job_scope, in_scope, within, overlap, escapes, no_scope,
}
use be_code_redux.Subagent.Scope.Cleaning.{clean_scope-IsInside}
use be_code_redux.Subagent.Scope.Covering.{in_scope_iff, Begins}
use be_code_redux.Subagent.Scope.Sharing.{overlap-clean_job_scope}
use be_code_redux.Subagent.Ready.{
  Card, StepInfo, Steps, step, nil, cons, Scopes, Candidate, ready, overlaps, candidate,
  index_steps, walk_steps, consider, is_candidate, is_closed, index_info, decide_step, reason_for,
  card_reason, overlap_reason, order_reason, sibling_reason,
}
use be_code_redux.Subagent.Ready.Tops.{tops_steps}
use be_code_redux.Subagent.Ready.Indexed.{no_steps}
use be_code_redux.Subagent.Ready.Partition.{ready-partition, with_reason, names, idle_names}

program : Unit {0}
unfolding clean_job_scope clean_scope clean trim_space climbs in_scope within overlap
program = tt

accepted :
    clean_scope (codes " internal//agent/ " ∷ codes "a/../cmd" ∷ [])
    ≡ ok (codes "internal/agent" ∷ codes "cmd" ∷ [])
unfolding program
accepted = refl

climbing : clean_scope (codes "a/../../b" ∷ []) ≡ err (escapes (codes "a/../../b"))
unfolding program
climbing = refl

-- The comment of CleanScope says that entries are trimmed; the cleaned path may end in a space.
untrimmed : clean_scope (codes "b /" ∷ []) ≡ ok (codes "b " ∷ [])
unfolding program
untrimmed = refl

job_accepted : clean_job_scope (codes "docs" ∷ [] ∷ []) ≡ ok (codes "docs" ∷ [])
unfolding program
job_accepted = refl

job_whole : clean_job_scope (codes "docs" ∷ codes "./" ∷ []) ≡ ok (codes "." ∷ [])
unfolding program
job_whole = refl

job_empty : clean_job_scope ([] ∷ []) ≡ err no_scope
unfolding program
job_empty = refl

clean_scope-IsInside_example :
    All IsInside (codes "internal/agent" ∷ codes "cmd" ∷ [])
    × (length (codes "internal/agent" ∷ codes "cmd" ∷ []) ≡ 2)
clean_scope-IsInside_example =
    clean_scope-IsInside (codes " internal//agent/ " ∷ codes "a/../cmd" ∷ [])
      (codes "internal/agent" ∷ codes "cmd" ∷ []) accepted

agent_job : clean_job_scope (codes "internal/agent" ∷ []) ≡ ok (codes "internal/agent" ∷ [])
unfolding program
agent_job = refl

no_overlap : overlap (codes "docs" ∷ []) (codes "internal/agent" ∷ []) ≡ false
unfolding program
no_overlap = refl

in_docs : in_scope (codes "docs" ∷ []) (codes "docs/a.md") ≡ true
unfolding program
in_docs = refl

overlap-clean_job_scope_example : in_scope (codes "internal/agent" ∷ []) (codes "docs/a.md") ≡ false
overlap-clean_job_scope_example =
    overlap-clean_job_scope (codes "docs" ∷ [] ∷ []) (codes "internal/agent" ∷ [])
      (codes "docs" ∷ []) (codes "internal/agent" ∷ []) job_accepted agent_job no_overlap
      (codes "docs/a.md") in_docs

docs_clean : clean (codes "docs/plans") ≡ codes "docs/plans"
unfolding program
docs_clean = refl

docs_within : within (codes "docs/plans" ∷ []) (codes "docs" ∷ []) ≡ true
unfolding program
docs_within = refl

in_plans : in_scope (codes "docs/plans" ∷ []) (codes "docs/plans/x.md") ≡ true
unfolding program
in_plans = refl

docs_inside : IsInside (codes "docs")
unfolding join
docs_inside = record {
  names = codes "docs" ∷ [];
  some_name = cc;
  proper = ((cc, cc, cc, omega arith), tt);
  spells = refl;
}

plan_inside : IsInside (codes "docs/plan")
unfolding join
plan_inside = record {
  names = codes "docs" ∷ codes "plan" ∷ [];
  some_name = cc;
  proper = ((cc, cc, cc, omega arith), ((cc, cc, cc, omega arith), tt));
  spells = refl;
}

in_scope_iff_example :
    (in_scope (codes "docs" ∷ []) (codes "docs/plan") ≡ true)
    ↔ Begins docs_inside.names plan_inside.names
in_scope_iff_example = in_scope_iff (codes "docs") (codes "docs/plan") docs_inside plan_inside

-- A plan of three steps: the first two belong to a co-worker and overlap, the third waits.
abbrev step_of : Text → Text → Text → List Text → List Text → StepInfo
step_of id status owner scope after = record {
  id = id;
  text = codes "work";
  status = status;
  owner = owner;
  scope = scope;
  after = after;
  job = false;
  interrupted = false;
  touched = [];
}

abbrev first_step : StepInfo
first_step = step_of (codes "1.1") (codes "todo") (codes "big") (codes "docs" ∷ []) []

abbrev second_step : StepInfo
second_step =
    step_of (codes "1.2") (codes "todo") (codes "big") (codes "docs/a" ∷ []) (codes "2" ∷ [])

abbrev plan : Steps
plan =
    cons
      (step (step_of (codes "1") (codes "doing") [] [] [])
        (cons (step first_step nil) (cons (step second_step nil) nil)))
      (cons (step (step_of (codes "2") (codes "done") [] [] []) nil) nil)

abbrev big : Card
big = record {
  name = codes "big";
  provider = codes "lan";
  server = codes "http://lan";
  online = false;
  sub_agent = true;
  max_scope = [];
}

abbrev one_card : Text → Option Card
one_card name = if name == codes "big" then some big else none

abbrev none_running : Text → Bool
none_running id = false

abbrev same_order : Scopes → Scopes
same_order m = m

search_plan : Unit {0}
unfolding walk_steps consider is_candidate is_closed lookup index_steps index_info insert
    decide_step reason_for card_reason overlap_reason order_reason sibling_reason
search_plan = tt

run_of_plan : ready one_card none_running same_order plan ≡ record {
  taken = (codes "1.1", codes "docs" ∷ []) ∷ [];
  ready = candidate first_step none ∷ [];
  waiting = candidate second_step (some (overlaps (codes "1.1"))) ∷ [];
}
unfolding ready program search_plan
run_of_plan = refl

ready-partition_example :
    (trace : List Candidate) × ((ready one_card none_running same_order plan).ready
      ≡ with_reason false trace)
    × ((ready one_card none_running same_order plan).waiting ≡ with_reason true trace)
    × (names trace
        ≡ idle_names none_running
            (tops_steps (index_steps none_running plan no_steps).closed plan [] []))
ready-partition_example = ready-partition one_card none_running same_order plan
