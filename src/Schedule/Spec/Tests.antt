-- ===== src/Schedule/Spec/Tests.antt =====
-- A location whose clock goes forward an hour once, times read in it, and the theorems at them.
use be_code_redux.Base.{
  ℕ, ◌+◌, ◌-◌, ◌*◌, ◌/◌, ◌%◌, ◌≤◌, ◌<◌, codes, text_keyed, nat_keyed, if◌then◌else◌, ltb, some, err,
  ◌≡◌, refl, arith, inl, inr, Bool-cases, lookup,
}
use be_code_redux.Paths.{split, join, fields}
use be_code_redux.Decimal.{digits, itoa, read_digits, read_number, atoi}
use be_code_redux.Schedule.Cron.{
  cut, step_bits, span_of, stepped, span_bits, part_span, parts_bits, cron_field, cron_fields,
  parse_cron,
}
use be_code_redux.Schedule.Cron.Loops.{first_from}
use be_code_redux.Schedule.Cron.Next.{day_matches, try_minute, try_hour, try_day, next}
use be_code_redux.Schedule.Spec.{
  Zone, second, hour, bisect, transition_near, wall, bad_time, next_every, next_due_time, due_by,
  next_due,
}
use be_code_redux.Schedule.Spec.Reading.{
  clock_time, day_numbers, day_list, cron_spec, daily_text, daily_at, today, on_date, parse_at,
  from_now, on_days, parse_words, parse_in,
}
use be_code_redux.Schedule.Spec.Bisection.{ChangesAt, transition_near-found}
use be_code_redux.Schedule.Spec.Grid.{IsDue, next_every-least}

program : Unit {0}
unfolding split join fields digits itoa read_digits read_number atoi cut step_bits span_of stepped
    span_bits part_span parts_bits cron_field cron_fields parse_cron first_from day_matches
    try_minute try_hour try_day next bisect transition_near wall clock_time day_numbers day_list
    cron_spec daily_text daily_at today on_date parse_at from_now on_days parse_words parse_in
    next_every next_due_time due_by next_due lookup
program = tt

abbrev change : ℕ
change = 86400 * second + 2 * hour

-- The seconds that the clock shows at an instant.
abbrev shown : ℕ → ℕ
shown t = (if ltb t change then t else t + hour) / second

abbrev zone : Zone
zone = record {
  date = λ d h mi.
      let t = (d * 86400 + h * 3600 + mi * 60) * second in if ltb t change then t else t - hour;
  day_at = λ t. shown t / 86400;
  hour_at = λ t. shown t % 86400 / 3600;
  minute_at = λ t. shown t % 3600 / 60;
  offset_at = λ t. if ltb t change then 0 else 1;
  calendar = λ d. record { month = 3; day = d; weekday = d % 7 };
}

-- 02:30 on the day of the change does not exist: it becomes the instant of the change.
in_gap : wall zone 1 2 30 ≡ change
unfolding program
in_gap = refl

morning : wall zone 1 1 30 ≡ 86400 * second + 5400 * second
unfolding program
morning = refl

two_digits : clock_time (codes "9:5") ≡ err (bad_time (codes "9:5"))
unfolding program
two_digits = refl

days : day_list (codes "mon,thu") ≡ some (codes "1,4")
unfolding program
days = refl

once : ChangesAt zone 0 (change + hour - 3 * hour) (change + hour + 3 * hour) change
once u a b = elim (Bool-cases (ltb u change)) [ inl e ↦ rw e refl | inr e ↦ rw e refl ]

transition_near-found_example : transition_near zone (change + hour) ≡ change
transition_near-found_example =
    transition_near-found zone (change + hour) change (omega arith) (omega arith) refl once

next_every-least_example :
    IsDue 30 100 (next_every 30 100 165)
    × (165 < next_every 30 100 165)
    × ((t : ℕ) → IsDue 30 100 t → 165 < t → next_every 30 100 165 ≤ t)
next_every-least_example = next_every-least 30 100 165 (omega arith)
