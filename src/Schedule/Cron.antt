-- ===== src/Schedule/Cron.antt =====
-- internal/schedule/cron.go: cron expressions. A uint64 of flags is the list of its set bits.
pub mod Loops
pub mod Next
mod Rounds
mod Parts
mod Fields
mod Tests
use be_code_redux.Base.{
  ℕ, zero, suc, ◌+◌, ◌-◌, ◌%◌, ◌^◌, List, [], ◌∷◌, ◌++◌, Bool, true, false, not, ◌&&◌, ◌||◌, Text,
  codes, text_keyed, nat_keyed, ◌==◌, if◌then◌else◌, ltb, leb, Option, none, some, length, Result,
  ok, err, ◌>>=◌, any,
}
use be_code_redux.Paths.{split, fields}
use be_code_redux.Decimal.{ℤ, pos, negsuc, atoi}

pub data FieldError : Type 0 where
  bad_step : Text → FieldError
  bad_range : Text → FieldError
  bad_value : Text → FieldError
  outside : Text → ℕ → ℕ → FieldError
  endless : FieldError

-- The texts before and behind the first `sep`, and whether there is one: strings.Cut.
unfoldable pub cut : ℕ → Text → Text × Text × Bool
cut sep [] = ([], [], false)
cut sep (c ∷ s) =
    let (before, behind, found) = cut sep s in
    if c == sep then ([], s, true) else (c ∷ before, behind, found)

-- A positive int with no error.
abbrev pub read_step : ℤ × Bool → Option ℕ
read_step (pos (suc n), true) = some (suc n)
read_step _ = none

abbrev pub int_gt : ℤ → ℤ → Bool
int_gt (pos m) (pos n) = ltb n m
int_gt (pos m) (negsuc n) = true
int_gt (negsuc m) (pos n) = false
int_gt (negsuc m) (negsuc n) = ltb m n

-- The two's complement of an int.
abbrev pub word : ℤ → ℕ
word (pos n) = n
word (negsuc n) = 2 ^ 64 - suc n

-- `v <= b` on ints.
abbrev pub int_le : ℕ → ℕ → Bool
int_le v b = leb ((v + 2 ^ 63) % 2 ^ 64) ((b + 2 ^ 63) % 2 ^ 64)

-- bits | 1 << uint(v): a shift by 64 or more leaves nothing.
abbrev pub set_bit : ℕ → List ℕ → List ℕ
set_bit v bits = if ltb v 64 then v ∷ bits else bits

-- bits & (1 << uint(v)) != 0
abbrev pub has_bit : List ℕ → ℕ → Bool
has_bit bits v = any (λ w. w == v) bits

-- for v := a; v <= b; v += step, with the sum wrapped round; nothing where the fuel runs out.
unfoldable pub step_bits : ℕ → ℕ → ℕ → ℕ → List ℕ → Option (List ℕ)
step_bits zero v b step bits = none
step_bits (suc fuel) v b step bits = elim (int_le v b) [
  | false ↦ some bits
  | true ↦ step_bits fuel ((v + step) % 2 ^ 64) b step (set_bit v bits)
]

-- No field and no step needs more rounds.
abbrev pub round_limit : ℕ
round_limit = 128

-- One part of a field: its first value, its last and its step.
pub record Span : Type 0 where
  pub first : ℤ
  pub last : ℤ
  pub step : ℕ

abbrev pub range_span : Text → ℕ → ℤ × Bool → ℤ × Bool → Result FieldError Span
range_span rng step (a, ok_a) (b, ok_b) =
    if not ok_a || not ok_b || int_gt a b
    then err (bad_range rng)
    else ok (record { first = a; last = b; step = step })

abbrev pub value_span : Text → ℕ → ℕ → ℤ × Bool → Result FieldError Span
value_span rng hi step (n, ok_n) =
    if ok_n
    then ok (record { first = n; last = if step == 1 then n else pos hi; step = step })
    else err (bad_value rng)

-- The switch on what stands before the step.
unfoldable pub span_of : ℕ → ℕ → Text → ℕ → Result FieldError Span
unfolding cut atoi
span_of lo hi rng step =
    let (x, y, dashed) = cut b'-' rng in
    if rng == codes "*"
    then ok (record { first = pos lo; last = pos hi; step = step })
    else if dashed
    then range_span rng step (atoi x) (atoi y)
    else value_span rng hi step (atoi rng)

unfoldable pub stepped : ℕ → ℕ → Text → Text → Option ℕ → Result FieldError Span
unfolding span_of
stepped lo hi part rng none = err (bad_step part)
stepped lo hi part rng (some n) = span_of lo hi rng n

abbrev pub is_below : ℤ → ℕ → Bool
is_below (pos n) lo = ltb n lo
is_below (negsuc n) lo = true

abbrev pub is_above : ℤ → ℕ → Bool
is_above (pos n) hi = ltb hi n
is_above (negsuc n) hi = false

abbrev pub inside : Text → ℕ → ℕ → Span → Result FieldError Span
inside part lo hi s =
    if is_below s.first lo || is_above s.last hi then err (outside part lo hi) else ok s

-- What a part of a field stands for.
unfoldable pub part_span : ℕ → ℕ → Text → Result FieldError Span
unfolding cut stepped atoi
part_span lo hi part =
    let (before, behind, slashed) = cut b'/' part in
    let span =
      if slashed
      then stepped lo hi part before (read_step (atoi behind))
      else span_of lo hi part 1 in
    span >>= inside part lo hi

abbrev pub ended : Option (List ℕ) → Result FieldError (List ℕ)
ended none = err endless
ended (some bits) = ok bits

unfoldable pub span_bits : List ℕ → Span → Result FieldError (List ℕ)
unfolding step_bits
span_bits bits s = ended (step_bits round_limit (word s.first) (word s.last) s.step bits)

unfoldable pub parts_bits : ℕ → ℕ → List Text → List ℕ → Result FieldError (List ℕ)
unfolding part_span span_bits
parts_bits lo hi [] bits = ok bits
parts_bits lo hi (part ∷ parts) bits =
    (part_span lo hi part >>= span_bits bits) >>= parts_bits lo hi parts

-- cronField
unfoldable pub cron_field : Text → ℕ → ℕ → Result FieldError (List ℕ)
unfolding parts_bits split
cron_field s lo hi = parts_bits lo hi (split b',' s) []

pub data CronError : Type 0 where
  five_fields : ℕ → CronError
  minute hour day_of_month month day_of_week : FieldError → CronError

-- cronExpr
pub record CronExpr : Type 0 where
  pub min : List ℕ
  pub hour : List ℕ
  pub dom : List ℕ
  pub mon : List ℕ
  pub dow : List ℕ
  pub dom_star : Bool
  pub dow_star : Bool

abbrev pub in_field :
    (FieldError → CronError) → Result FieldError (List ℕ) → Result CronError (List ℕ)
in_field wrap (ok bits) = ok bits
in_field wrap (err e) = err (wrap e)

-- 7 is Sunday too.
abbrev pub sunday : List ℕ → List ℕ
sunday dow = if has_bit dow 7 then set_bit 0 dow else dow

unfoldable pub cron_fields : List Text → Result CronError CronExpr
unfolding cron_field
cron_fields (a ∷ b ∷ c ∷ d ∷ e ∷ []) = in_field minute (cron_field a 0 59) >>= (λ min.
    in_field hour (cron_field b 0 23) >>= (λ hours.
      in_field day_of_month (cron_field c 1 31) >>= (λ dom.
        in_field month (cron_field d 1 12) >>= (λ mon.
          in_field day_of_week (cron_field e 0 7) >>= (λ dow. ok (record {
            min = min;
            hour = hours;
            dom = dom;
            mon = mon;
            dow = sunday dow;
            dom_star = c == codes "*";
            dow_star = e == codes "*";
          }))))))
cron_fields f = err (five_fields (length f))

-- parseCron
unfoldable pub parse_cron : Text → Result CronError CronExpr
unfolding cron_fields fields
parse_cron s = cron_fields (fields s)
