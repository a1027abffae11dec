-- ===== src/Subagent/Lanes/Exclusive.antt =====
-- The two fields of a lane (internal/subagent/lanes.go) and the counts of its callers.
use be_code_redux.Base.{
  total, total-set, at-total, ℕ, ◌+◌, ◌≤◌, Bool, true, false, if◌then◌else◌, ltb, some, get_elem?,
  ◌≡◌, ◌↔◌, ◌⊎◌, refl, arith, Bool-cases, inl, inr,
}
use be_code_redux.Subagent.Lanes.{
  Lane, Phase, outside, waiting, holding, released, Caller, World, IsOutside, turn, arrive, release,
  moved, Step, enter, wake, give_back, give_back_again, Reached, start, next,
}
use be_code_redux.Subagent.Lanes.Counts.{holds, waits_first, total_outside}

abbrev pub holders : World → ℕ
holders w = total holds w.callers

abbrev pub first_waiters : World → ℕ
first_waiters w = total waits_first w.callers

abbrev bit : Bool → ℕ
bit true = 1
bit false = 0

record IsCounted (w : World) : Type 0 where
  held_by : holders w ≡ bit w.lane.held
  waited_by : first_waiters w ≡ w.lane.primary_waiting

module _ (w : World) (i : ℕ) (primary : Bool) (phase : Phase) where
  abbrev old : Caller
  old = record { primary = primary; phase = phase }

  -- A caller at `i` that moves to the world `v`.
  moved-IsCounted :
      (r : Lane × Phase)
      → get_elem? w.callers i ≡ some old
      → holders w + holds (record { primary = primary; phase = r.1 }) ≡ bit r.0.held + holds old
      → first_waiters w + waits_first (record { primary = primary; phase = r.1 })
        ≡ r.0.primary_waiting + waits_first old
      → IsCounted (moved w i primary r)
  moved-IsCounted r g h k =
      let d : Caller = record { primary = primary; phase = r.1 } in
      record {
        held_by = omega (arith, total-set holds w.callers i old d g);
        waited_by = omega (arith, total-set waits_first w.callers i old d g);
      }

abbrev lane_of : Bool → ℕ → Lane
lane_of held n = record { held = held; primary_waiting = n }

abbrev one_if : Bool → ℕ
one_if p = if p then 1 else 0

-- A turn of a caller that is counted as waiting.
record TurnCounts (ln : Lane) (p : Bool) (r : Lane × Phase) : Type 0 where
  lane_kept : bit ln.held + holds (record { primary = p; phase = r.1 }) ≡ bit r.0.held
  first_kept :
      ln.primary_waiting + waits_first (record { primary = p; phase = r.1 })
      ≡ r.0.primary_waiting + one_if p

turn_counts :
    (held p ended : Bool) (n : ℕ)
    → one_if p ≤ n
    → TurnCounts (lane_of held n) p (turn (lane_of held n) p ended)
unfolding turn
turn_counts true true true n h = record { lane_kept = omega arith; first_kept = omega arith }
turn_counts true true false n h = record { lane_kept = omega arith; first_kept = omega arith }
turn_counts true false true n h = record { lane_kept = omega arith; first_kept = omega arith }
turn_counts true false false n h = record { lane_kept = omega arith; first_kept = omega arith }
turn_counts false true ended n h = record { lane_kept = omega arith; first_kept = omega arith }
turn_counts false false ended n h = elim (Bool-cases (ltb 0 n)) [
  | inr e ↦ rw e (record { lane_kept = omega arith; first_kept = omega arith })
  | inl e ↦ rw e (elim (Bool-cases ended) [
    | inl d ↦ rw d (record { lane_kept = omega arith; first_kept = omega arith })
    | inr d ↦ rw d (record { lane_kept = omega arith; first_kept = omega arith })
  ])
]

bit-le : (b : Bool) → bit b ≤ 1
bit-le true = omega arith
bit-le false = omega arith

Step-IsCounted : (w v : World) → Step w v → IsCounted w → IsCounted v
unfolding release
Step-IsCounted w _ (enter i true ended g) n =
    let t = turn_counts w.lane.held true ended (w.lane.primary_waiting + 1) (omega arith) in
    moved-IsCounted w i true outside (turn (arrive w.lane true) true ended) g
      (omega (arith, n.held_by, t.lane_kept)) (omega (arith, n.waited_by, t.first_kept))
Step-IsCounted w _ (enter i false ended g) n =
    let t = turn_counts w.lane.held false ended w.lane.primary_waiting (omega arith) in
    moved-IsCounted w i false outside (turn w.lane false ended) g
      (omega (arith, n.held_by, t.lane_kept)) (omega (arith, n.waited_by, t.first_kept))
Step-IsCounted w _ (wake i p ended g) n =
    let t =
      turn_counts w.lane.held p ended w.lane.primary_waiting
        (omega (arith, at-total waits_first w.callers i (old w i p waiting) g, n.waited_by)) in
    moved-IsCounted w i p waiting (turn w.lane p ended) g (omega (arith, n.held_by, t.lane_kept))
      (omega (arith, n.waited_by, t.first_kept))
Step-IsCounted w _ (give_back i p g) n =
    moved-IsCounted w i p holding (release false w.lane, released) g
      (omega
        (arith, at-total holds w.callers i (old w i p holding) g, n.held_by, bit-le w.lane.held))
      (omega (arith, n.waited_by))
Step-IsCounted w _ (give_back_again i p g) n =
    moved-IsCounted w i p released (release true w.lane, released) g (omega (arith, n.held_by))
      (omega (arith, n.waited_by))

Reached-IsCounted : (w : World) → Reached w → IsCounted w
Reached-IsCounted _ (start callers h) = record {
  held_by = total_outside holds none_holds callers h;
  waited_by = total_outside waits_first none_waits callers h;
}
  where
    none_holds : (c : Caller) → IsOutside c → holds c ≡ 0
    none_holds c e = rw e refl

    none_waits : (c : Caller) → IsOutside c → waits_first c ≡ 0
    none_waits c e = rw e refl
Reached-IsCounted v (next {w = w} r s) = Step-IsCounted w v s (Reached-IsCounted w r)

-- In every world that the callers reach, at most one of them holds the lane, the lane is marked as
-- held exactly when one does, and primary_waiting is the number of primary callers that wait.
pub holders-le :
    (w : World)
    → Reached w
    → (holders w ≤ 1)
      × ((w.lane.held ≡ true) ↔ (holders w ≡ 1))
      × (first_waiters w ≡ w.lane.primary_waiting)
holders-le w r =
    let n = Reached-IsCounted w r in
    (
      omega (arith, n.held_by, bit-le w.lane.held),
      held_iff w.lane.held (holders w) n.held_by,
      n.waited_by,
    )
  where
    held_iff : (b : Bool) (m : ℕ) → m ≡ bit b → (b ≡ true) ↔ (m ≡ 1)
    held_iff true m e = (λ h. e, λ h. refl)
    held_iff false m e = (λ h. cc, λ h. absurd (omega arith))

turn_holding :
    (held p ended : Bool) (n : ℕ)
    → ((turn (lane_of held n) p ended).1 ≡ holding) ↔ ((bit held ≡ 0) × ((p ≡ true) ⊎ (n ≡ 0)))
unfolding turn
turn_holding held p ended n = ground arith

-- In every world that the callers reach, a turn of a caller gets the lane exactly when no caller
-- holds it, and the caller is a primary one or no primary caller waits.
pub turn-holding :
    (w : World) (primary ended : Bool)
    → Reached w
    → ((turn w.lane primary ended).1 ≡ holding)
      ↔ ((holders w ≡ 0) × ((primary ≡ true) ⊎ (first_waiters w ≡ 0)))
turn-holding w primary ended r =
    let n = Reached-IsCounted w r in
    rw (n.held_by, n.waited_by) (turn_holding w.lane.held primary ended w.lane.primary_waiting)
