-- ===== src/Subagent/Lanes/Tests.antt =====
-- A primary call and a sub-agent's on one lane, and the theorems at what they reach.
use be_code_redux.Base.{◌≤◌, [], ◌∷◌, true, false, ◌≡◌, ◌↔◌, ◌⊎◌, refl, codes, lookup}
use be_code_redux.Subagent.Lanes.{
  World, outside, waiting, holding, turn, release, lane_for, busy, enter, Reached, start, next,
}
use be_code_redux.Subagent.Lanes.Exclusive.{holders, first_waiters, holders-le, turn-holding}

program : Unit {0}
unfolding turn release lane_for busy lookup
program = tt

abbrev both : World
both = record {
  lane = record { held = false; primary_waiting = 0 };
  callers =
      record { primary = true; phase = outside } ∷ record { primary = false; phase = outside } ∷ [];
}

-- The sub-agent takes the lane, then the primary comes and waits.
abbrev contended : World
contended = record {
  lane = record { held = true; primary_waiting = 1 };
  callers =
      record { primary = true; phase = waiting } ∷ record { primary = false; phase = holding } ∷ [];
}

contended-Reached : Reached contended
unfolding program
contended-Reached =
    next (next (start both.callers (refl, (refl, tt))) (enter 1 false false refl))
      (enter 0 true false refl)

unknown : busy [] (codes "a:1") ≡ false
unfolding program
unknown = refl

holders-le_example :
    (holders contended ≤ 1)
    × ((contended.lane.held ≡ true) ↔ (holders contended ≡ 1))
    × (first_waiters contended ≡ contended.lane.primary_waiting)
holders-le_example = holders-le contended contended-Reached

turn-holding_example :
    ((turn contended.lane true false).1 ≡ holding)
    ↔ ((holders contended ≡ 0) × ((true ≡ true) ⊎ (first_waiters contended ≡ 0)))
turn-holding_example = turn-holding contended true false contended-Reached
