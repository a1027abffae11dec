-- ===== src/Engine/Status/Tests.antt =====
-- A tree with a dispatched subtree, and the theorem at a step of each pen.
use be_code_redux.Base.{
  [], ◌∷◌, Text, codes, text_keyed, nat_keyed, ◌≡◌, true, false, refl, arith, map, ap, length,
}
use be_code_redux.Paths.{split, join, trim_space}
use be_code_redux.Engine.Tree.{NodeInfo, nil, branch, Tree, doing, todo, done, walk, find, new_node}
use be_code_redux.Engine.Status.{
  pen_of, first_where, doing_under, own_owner, owner_up, owner_of, doing_node, put, previous,
  demote, stamped, closer, set_at, written_at, status_at, set_status, all_terminal, without,
  set_dispatched,
}
use be_code_redux.Engine.Status.Pens.{Unnested}
use be_code_redux.Engine.Status.Exclusive.{OneDoing, set_status-OneDoing}

program : Unit {0}
unfolding walk find split join trim_space pen_of first_where doing_under own_owner owner_up owner_of
    doing_node put previous demote stamped closer set_at written_at status_at set_status
    all_terminal without set_dispatched
program = tt

abbrev step : Text → Text → NodeInfo
step id text = new_node id text 5

-- Steps 1, 1.1 and 1.2, and step 2 with its owner's steps 2.1 and 2.2; 1.1 and 2.1 are doing.
abbrev two_pens : Tree
two_pens = record {
  roots =
      branch (step (codes "1") (codes "plan"))
        (branch (record (step (codes "1.1") (codes "read")) { status = doing }) nil
          (branch (step (codes "1.2") (codes "write")) nil nil))
        (branch (record (step (codes "2") (codes "build")) { owner = codes "big" })
          (branch (record (step (codes "2.1") (codes "make")) { status = doing }) nil
            (branch (step (codes "2.2") (codes "check")) nil nil))
          nil);
  dispatched = codes "2" ∷ [];
}

pens : set_dispatched (record two_pens { dispatched = [] }) (codes "2") true ≡ two_pens
unfolding program
pens = refl

inside :
    map (λ n. n.status) (walk (set_status two_pens (codes "2.2") doing [] 9).0.roots)
    ≡ todo ∷ doing ∷ todo ∷ todo ∷ todo ∷ doing ∷ []
unfolding program
inside = refl

closed_by :
    map (λ n. n.done_by) (walk (set_status two_pens (codes "2.2") done [] 9).0.roots)
    ≡ [] ∷ [] ∷ [] ∷ [] ∷ [] ∷ codes "big" ∷ []
unfolding program
closed_by = refl

unfinished : all_terminal two_pens.roots ≡ false
unfolding program
unfinished = refl

apart : Unnested two_pens.dispatched
apart = ((λ e. omega (arith, ap length e), (λ h. refl, tt)), tt)

one_each : OneDoing two_pens.dispatched (walk two_pens.roots)
unfolding program
one_each = ((omega arith, tt), omega arith)

set_status-OneDoing_example :
    OneDoing (codes "2" ∷ []) (walk (set_status two_pens (codes "2.2") doing [] 9).0.roots)
set_status-OneDoing_example = set_status-OneDoing two_pens (codes "2.2") doing [] 9 apart one_each
