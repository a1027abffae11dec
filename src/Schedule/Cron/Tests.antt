-- ===== src/Schedule/Cron/Tests.antt =====
-- Cron fields that are read, refused or strange, and the theorems at them.
use be_code_redux.Base.{
  ℕ, ◌+◌, ◌*◌, List, [], ◌∷◌, true, false, Text, codes, text_keyed, nat_keyed, some, ok, err, ◌≡◌,
  ◌≢◌, ◌↔◌, refl, arith, inl, inr, sym, ap, ◌∙◌, ok-injective,
}
use be_code_redux.Paths.{split, fields}
use be_code_redux.Decimal.{pos, read_digits, read_number, atoi}
use be_code_redux.Schedule.Cron.{
  outside, endless, cut, step_bits, span_of, stepped, span_bits, part_span, parts_bits, cron_field,
  cron_fields, parse_cron, has_bit, CronExpr,
}
use be_code_redux.Schedule.Cron.Fields.{Covers, cron_field-ends, cron_field-Covers, SmallSteps}
use be_code_redux.Schedule.Cron.Loops.{first_from}
use be_code_redux.Schedule.Cron.Next.{
  Day, day_matches, try_minute, try_hour, try_day, next, IsNext, IsMonotone, next-IsNext,
}

program : Unit {0}
unfolding split fields read_digits read_number atoi cut step_bits span_of stepped span_bits
    part_span parts_bits cron_field cron_fields parse_cron first_from day_matches try_minute
    try_hour try_day next
program = tt

listed : cron_field (codes "3-10/3,7") 0 59 ≡ ok (7 ∷ 9 ∷ 6 ∷ 3 ∷ [])
unfolding program
listed = refl

refused : cron_field (codes "5-70") 0 59 ≡ err (outside (codes "5-70") 0 59)
unfolding program
refused = refl

-- A first value above the field's bound is accepted with a step, and names no value.
empty : cron_field (codes "70/2") 0 59 ≡ ok []
unfolding program
empty = refl

-- A sum that overflows comes back below the first value.
backwards : cron_field (codes "10/9223372036854775807") 0 59 ≡ ok (0 ∷ 2 ∷ 4 ∷ 6 ∷ 8 ∷ 10 ∷ [])
unfolding program
backwards = refl

cron_field-ends_example : cron_field (codes "10/9223372036854775807") 0 59 ≢ err endless
cron_field-ends_example =
    cron_field-ends (codes "10/9223372036854775807") 0 59 (omega arith) (omega arith)

abbrev parts : List Text
parts = codes "3-10/3" ∷ codes "7" ∷ []

thirds : part_span 0 59 (codes "3-10/3") ≡ ok (record { first = pos 3; last = pos 10; step = 3 })
unfolding program
thirds = refl

single : part_span 0 59 (codes "7") ≡ ok (record { first = pos 7; last = pos 7; step = 1 })
unfolding program
single = refl

small : SmallSteps 0 59 (split b',' (codes "3-10/3,7"))
unfolding program
small = (
  λ s e. omega (arith, ap (λ z. z.step) (ok-injective (sym thirds ∙ e))),
  (λ s e. omega (arith, ap (λ z. z.step) (ok-injective (sym single ∙ e))), tt),
)

cron_field-Covers_example :
    (has_bit (7 ∷ 9 ∷ 6 ∷ 3 ∷ []) 9 ≡ true) ↔ Covers 0 59 (split b',' (codes "3-10/3,7")) 9
cron_field-Covers_example =
    cron_field-Covers (codes "3-10/3,7") 0 59 (7 ∷ 9 ∷ 6 ∷ 3 ∷ []) (omega arith) (omega arith) small
      listed 9

-- Every day is the first of a month, and a Monday.
abbrev same_days : ℕ → Day
same_days i = record { month = 1; day = 1; weekday = 1 }

abbrev plain_wall : ℕ → ℕ → ℕ → ℕ
plain_wall i h m = i * 86400 + h * 3600 + m * 60

abbrev early : CronExpr
early = record {
  min = 30 ∷ [];
  hour = 9 ∷ 14 ∷ [];
  dom = 2 ∷ [];
  mon = 1 ∷ [];
  dow = 1 ∷ [];
  dom_star = false;
  dow_star = false;
}

afternoon : next same_days plain_wall early 40000 ≡ some 52200
unfolding program
afternoon = refl

plain : IsMonotone same_days plain_wall early 40000
plain i h m i' h' m' x x' order = elim order [
  | inl a ↦ omega (arith, a, x.hour_in, x.minute_in)
  | inr (e, inl b) ↦ omega (arith, e, b, x.minute_in)
  | inr (e, inr (k, c)) ↦ omega (arith, e, k, c)
]

next-IsNext_example :
    IsNext same_days plain_wall early 40000 (next same_days plain_wall early 40000)
next-IsNext_example = next-IsNext same_days plain_wall early 40000 plain
