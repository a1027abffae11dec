-- ===== src/Schedule/Spec.antt =====
-- internal/schedule/spec.go and NextDue of schedule.go: when a schedule is due; Spec/Reading reads
-- the forms of a time. Instants and durations are numbers of nanoseconds; the calendar of a zone and
-- Go's readers of durations and dates are parameters.
pub mod Reading
mod Bisection
mod Grid
mod Tests
use be_code_redux.Base.{
  ℕ, zero, suc, ◌+◌, ◌-◌, ◌*◌, ◌/◌, ◌%◌, ◌≤◌, ◌<◌, List, [], ◌∷◌, ◌++◌, Bool, true, false, not,
  ◌&&◌, ◌||◌, Text, codes, text_keyed, nat_keyed, ◌==◌, if◌then◌else◌, ltb, leb, Option, none, some,
  length, Result, ok, err, ◌>>=◌, any, lookup,
}
use be_code_redux.Paths.{split, join, fields}
use be_code_redux.Decimal.{ℤ, pos, negsuc, atoi, itoa}
use be_code_redux.Schedule.Cron.{CronExpr, CronError, parse_cron, cut}
use be_code_redux.Schedule.Cron.Next.{Day, next}

-- What the code asks of package time for one location.
pub record Zone : Type 0 where
  -- time.Date, at second 0, for a day counted from some first day
  pub date : ℕ → ℕ → ℕ → ℕ
  -- the day, hour and minute that the local clock reads
  pub day_at : ℕ → ℕ
  pub hour_at : ℕ → ℕ
  pub minute_at : ℕ → ℕ
  pub offset_at : ℕ → ℕ
  -- the month, day of month and weekday of a day
  pub calendar : ℕ → Day

-- time.Second and time.Hour, in nanoseconds
abbrev pub second : ℕ
second = 1000000000

abbrev pub hour : ℕ
hour = 3600 * second

-- The loop of transitionNear; nothing where the fuel runs out.
unfoldable pub bisect : Zone → ℕ → ℕ → ℕ → ℕ → Option ℕ
bisect z off zero lo hi = none
bisect z off (suc fuel) lo hi =
    let mid = lo + (hi - lo) / 2 in
    elim (ltb second (hi - lo)) [
      | false ↦ some hi
      | true ↦ elim (z.offset_at mid == off) [
        | true ↦ bisect z off fuel mid hi
        | false ↦ bisect z off fuel lo mid
      ]
    ]

-- Fifteen halvings take six hours below a second.
abbrev pub halvings : ℕ
halvings = 16

abbrev pub truncated : ℕ → Option ℕ → ℕ
truncated t none = t
truncated t (some hi) = hi - hi % second

-- transitionNear
unfoldable pub transition_near : Zone → ℕ → ℕ
unfolding bisect
transition_near z t =
    truncated t (bisect z (z.offset_at (t - 3 * hour)) halvings (t - 3 * hour) (t + 3 * hour))

-- wall
unfoldable pub wall : Zone → ℕ → ℕ → ℕ → ℕ
unfolding transition_near
wall z d h mi =
    let t = z.date d h mi in
    let e = t - hour in
    if not (z.hour_at t == h) || not (z.minute_at t == mi)
    then transition_near z t
    else if (z.hour_at e == h) && (z.minute_at e == mi) && (z.day_at e == d)
    then e
    else t

-- Spec without its text and location: kindIn and kindAt have a due time, kindEvery an interval and
-- the origin of its grid.
pub data When : Type 0 where
  due_in : ℕ → When
  due_at : ℕ → When
  every : ℕ → ℕ → When
  cron : CronExpr → When

pub record Spec : Type 0 where
  pub src : Text
  pub when : When

pub data SpecError : Type 0 where
  no_time : SpecError
  usage : Text → SpecError
  bad_duration bad_time bad_date unknown_day unknown_form : Text → SpecError
  bad_cron : CronError → SpecError

abbrev pub is_recurring : When → Bool
is_recurring (due_in t) = false
is_recurring (due_at t) = false
is_recurring (every d anchor) = true
is_recurring (cron e) = true

-- Due
abbrev pub due : When → Option ℕ
due (due_in t) = some t
due (due_at t) = some t
due (every d anchor) = none
due (cron e) = none

-- The grid of kindEvery. The interval is never 0.
unfoldable pub next_every : ℕ → ℕ → ℕ → ℕ
next_every d anchor after =
    if ltb after anchor then anchor + d else anchor + ((after - anchor) / d + 1) * d

-- Next
unfoldable pub next_due_time : Zone → When → ℕ → Option ℕ
unfolding next_every next wall
next_due_time z (due_in t) after = if ltb after t then some t else none
next_due_time z (due_at t) after = if ltb after t then some t else none
next_due_time z (every d anchor) after = some (next_every d anchor after)
next_due_time z (cron e) after =
    let today = z.day_at after in
    next (λ i. z.calendar (today + i)) (λ i h m. wall z (today + i) h m) e after

pub data State : Type 0 where
  active paused finished : State

-- The part of a Schedule that NextDue reads; a last run of 0 is none.
pub record Timing : Type 0 where
  pub state : State
  pub created : ℕ
  pub last_run : ℕ

abbrev pub is_active : State → Bool
is_active active = true
is_active paused = false
is_active finished = false

unfoldable pub due_by : Zone → Timing → Result SpecError Spec → Option ℕ
unfolding next_due_time
due_by z s (err e) = none
due_by z s (ok sp) =
    let base = if s.last_run == 0 then s.created else s.last_run in
    if is_recurring sp.when
    then next_due_time z sp.when base
    else if s.last_run == 0
    then due sp.when
    else none

-- NextDue, for what Spec has read.
unfoldable pub next_due : Zone → Timing → Result SpecError Spec → Option ℕ
unfolding due_by
next_due z s sp = if is_active s.state then due_by z s sp else none
