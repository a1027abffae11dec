-- ===== src/Subagent/Lanes.antt =====
-- internal/subagent/lanes.go: one lane for each model server. A section under a lane's mutex is one
-- step of a caller; between them the callers run in any order.
pub mod Counts
pub mod Exclusive
mod Tests
use be_code_redux.Base.{
  ℕ, zero, suc, ◌+◌, ◌-◌, ◌<◌, List, [], ◌∷◌, Bool, true, false, not, ◌&&◌, ◌||◌, Text, text_keyed,
  if◌then◌else◌, ltb, Option, none, some, Assoc, lookup, insert, get_elem?, set, All, ◌≡◌,
}

pub record Lane : Type 0 where
  pub held : Bool
  pub primary_waiting : ℕ

abbrev pub new_lane : Lane
new_lane = record { held = false; primary_waiting = 0 }

-- laneFor: the lanes after it and the server's lane.
unfoldable pub lane_for : Assoc Text Lane → Text → Assoc Text Lane × Lane
lane_for lanes server = elim (lookup server lanes) [
  | some ln ↦ (lanes, ln)
  | none ↦ (insert server new_lane lanes, new_lane)
]

-- Busy
unfoldable pub busy : Assoc Text Lane → Text → Bool
unfolding lane_for
busy lanes server = (lane_for lanes server).1.held

-- Where a caller of Acquire is.
pub data Phase : Type 0 where
  outside waiting holding released refused : Phase

-- The loop's condition.
abbrev pub blocked : Lane → Bool → Bool
blocked ln primary = ln.held || (not primary && ltb 0 ln.primary_waiting)

-- What Acquire does on entry, and what it defers to its return.
abbrev pub arrive : Lane → Bool → Lane
arrive ln primary = if primary then record ln { primary_waiting = ln.primary_waiting + 1 } else ln

abbrev pub leave : Lane → Bool → Lane
leave ln primary = if primary then record ln { primary_waiting = ln.primary_waiting - 1 } else ln

-- Acquire from a test of the condition to the next Wait or the return; `ended` tells whether the
-- context has ended.
unfoldable pub turn : Lane → Bool → Bool → Lane × Phase
turn ln primary ended =
    if blocked ln primary
    then if ended then (leave ln primary, refused) else (ln, waiting)
    else (leave (record ln { held = true }) primary, holding)

-- The release function; `used` is its sync.Once.
unfoldable pub release : Bool → Lane → Lane
release used ln = if used then ln else record ln { held = false }

pub record Caller : Type 0 where
  pub primary : Bool
  pub phase : Phase

pub record World : Type 0 where
  pub lane : Lane
  pub callers : List Caller

abbrev pub moved : World → ℕ → Bool → Lane × Phase → World
moved w i primary r = record {
  lane = r.0;
  callers = set w.callers i (record { primary = primary; phase = r.1 });
}

abbrev pub in_phase : Bool → Phase → Option Caller
in_phase primary phase = some (record { primary = primary; phase = phase })

-- One section under the mutex, by the caller at place `i`.
pub data Step (w : World) : World → Type 0 where
  enter :
      (i : ℕ) (primary ended : Bool)
      → get_elem? w.callers i ≡ in_phase primary outside
      → Step w (moved w i primary (turn (arrive w.lane primary) primary ended))
  wake :
      (i : ℕ) (primary ended : Bool)
      → get_elem? w.callers i ≡ in_phase primary waiting
      → Step w (moved w i primary (turn w.lane primary ended))
  give_back :
      (i : ℕ) (primary : Bool)
      → get_elem? w.callers i ≡ in_phase primary holding
      → Step w (moved w i primary (release false w.lane, released))
  give_back_again :
      (i : ℕ) (primary : Bool)
      → get_elem? w.callers i ≡ in_phase primary released
      → Step w (moved w i primary (release true w.lane, released))

abbrev pub IsOutside : Caller → Type 0
IsOutside c = c.phase ≡ outside

-- What callers that start outside Acquire on a new lane can reach.
pub data Reached : World → Type 0 where
  start :
      (callers : List Caller)
      → All IsOutside callers
      → Reached (record { lane = new_lane; callers = callers })
  next : {w v : World} → Reached w → Step w v → Reached v
