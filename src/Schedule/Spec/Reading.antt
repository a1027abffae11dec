-- ===== src/Schedule/Spec/Reading.antt =====
-- ParseIn of internal/schedule/spec.go and its helpers: the forms of a time.
use be_code_redux.Base.{
  ℕ, suc, ◌+◌, List, [], ◌∷◌, ◌++◌, Bool, true, false, not, ◌&&◌, ◌||◌, Text, codes, text_keyed,
  nat_keyed, ◌==◌, if◌then◌else◌, ltb, Option, none, some, length, Result, ok, err, ◌>>=◌, any,
  lookup,
}
use be_code_redux.Paths.{split, join, fields}
use be_code_redux.Decimal.{ℤ, pos, atoi, itoa}
use be_code_redux.Schedule.Cron.{CronExpr, CronError, parse_cron, cut}
use be_code_redux.Schedule.Spec.{
  Zone, wall, due_in, due_at, every, cron, Spec, SpecError, no_time, usage, bad_duration, bad_time,
  bad_date, unknown_day, unknown_form, bad_cron,
}

abbrev pub checked_clock : Text → ℤ × Bool → ℤ × Bool → Bool → Text → Result SpecError (ℕ × ℕ)
checked_clock s (pos h, true) (pos m, true) true ms =
    if ltb 23 h || ltb 59 m || not (length ms == 2) then err (bad_time s) else ok (h, m)
checked_clock s _ _ _ ms = err (bad_time s)

-- clockTime
unfoldable pub clock_time : Text → Result SpecError (ℕ × ℕ)
unfolding cut atoi
clock_time s = let (hs, ms, found) = cut b':' s in checked_clock s (atoi hs) (atoi ms) found ms

abbrev pub day_nums : List (Text × Text)
day_nums =
    (codes "sun", codes "0")
    ∷ (codes "mon", codes "1")
    ∷ (codes "tue", codes "2")
    ∷ (codes "wed", codes "3")
    ∷ (codes "thu", codes "4")
    ∷ (codes "fri", codes "5")
    ∷ (codes "sat", codes "6")
    ∷ []

unfoldable pub day_numbers : List Text → Option (List Text)
unfolding lookup
day_numbers [] = some []
day_numbers (d ∷ ds) =
    let rest = day_numbers ds in
    elim (lookup d day_nums) [
      | none ↦ none
      | some n ↦ elim rest [ none ↦ none | some ns ↦ some (n ∷ ns) ]
    ]

-- dayList
unfoldable pub day_list : Text → Option Text
unfolding day_numbers split
day_list s = elim (day_numbers (split b',' s)) [ none ↦ none | some out ↦ some (join b',' out) ]

-- strings.ContainsAny of a text
abbrev pub has_any : Text → Text → Bool
has_any chars s = any (λ c. any (λ d. d == c) chars) s

abbrev pub cron_when : Text → Result CronError CronExpr → Result SpecError Spec
cron_when src (err e) = err (bad_cron e)
cron_when src (ok c) = ok (record { src = src; when = cron c })

-- cronSpec
unfoldable pub cron_spec : Text → Text → Result SpecError Spec
unfolding parse_cron
cron_spec src expr = cron_when src (parse_cron expr)

-- fmt.Sprintf("%d %d * * %s", m, h, dow)
unfoldable pub daily_text : ℕ → ℕ → Text → Text
unfolding itoa
daily_text m h dow = itoa m ++ (b' ' ∷ (itoa h ++ (codes " * * " ++ dow)))

unfoldable pub daily_at : Text → Text → List Text → Result SpecError Spec
unfolding clock_time cron_spec daily_text
daily_at src dow (t ∷ []) = clock_time t >>= (λ hm. cron_spec src (daily_text hm.1 hm.0 dow))
daily_at src dow _ = err (usage src)

module _ (z : Zone) (lower : Text → Text) (parse_duration : Text → Option ℤ)
    (parse_date : Text → Option ℕ) where
  -- parseAt, with one field: today, or tomorrow where that is not after the creation.
  unfoldable pub today : Text → ℕ → ℕ × ℕ → Spec
  unfolding wall
  today src created (h, m) =
      let t = wall z (z.day_at created) h m in
      let tomorrow = wall z (z.day_at created + 1) h m in
      record { src = src; when = due_at (if ltb created t then t else tomorrow) }

  unfoldable pub on_date : Text → Text → Option ℕ → Text → Result SpecError Spec
  unfolding clock_time wall
  on_date src date none t = err (bad_date date)
  on_date src date (some d) t =
      clock_time t >>= (λ hm. ok (record { src = src; when = due_at (wall z d hm.0 hm.1) }))

  -- parseAt
  unfoldable pub parse_at : Text → List Text → ℕ → Result SpecError Spec
  unfolding clock_time today on_date
  parse_at src (t ∷ []) created = clock_time t >>= (λ hm. ok (today src created hm))
  parse_at src (d ∷ t ∷ []) created = on_date src d (parse_date d) t
  parse_at src _ created = err (usage src)

  abbrev pub interval : Text → ℕ → Bool → Text → Option ℤ → Result SpecError Spec
  interval src created once t (some (pos (suc d))) = ok (record {
    src = src;
    when = if once then due_in (created + suc d) else every (suc d) created;
  })
  interval src created once t _ = err (bad_duration t)

  unfoldable pub from_now : Text → ℕ → Bool → List Text → Result SpecError Spec
  from_now src created once (t ∷ []) = interval src created once t (parse_duration t)
  from_now src created once _ = err (usage src)

  -- A list of days, or a cron expression.
  unfoldable pub on_days : Text → Text → List Text → Option Text → Result SpecError Spec
  unfolding daily_at cron_spec
  on_days src word rest (some days) = daily_at src days rest
  on_days src word rest none =
      if has_any (codes ",") word && not (has_any (codes "0123456789*") word)
      then err (unknown_day word)
      else if length rest == 4
      then cron_spec src src
      else err (unknown_form src)

  unfoldable pub parse_words : Text → List Text → ℕ → Result SpecError Spec
  unfolding from_now parse_at daily_at on_days day_list
  parse_words src [] created = err no_time
  parse_words src (word ∷ rest) created =
      if word == codes "in"
      then from_now src created true rest
      else if word == codes "every"
      then from_now src created false rest
      else if word == codes "at"
      then parse_at src rest created
      else if word == codes "daily"
      then daily_at src (codes "*") rest
      else if word == codes "weekdays"
      then daily_at src (codes "1-5") rest
      else on_days src word rest (day_list word)

  -- ParseIn
  unfoldable pub parse_in : Text → ℕ → Result SpecError Spec
  unfolding fields parse_words
  parse_in s created =
      let src = join b' ' (fields s) in parse_words src (fields (lower src)) created
