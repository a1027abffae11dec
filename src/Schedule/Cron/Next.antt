-- ===== src/Schedule/Cron/Next.antt =====
-- dayMatches and next of internal/schedule/cron.go. The days from the one of `after` on, and the
-- instant that a local clock reads as a minute of one of them, are parameters.
use be_code_redux.Base.{
  ℕ, ◌≤◌, ◌<◌, Bool, true, false, not, ◌&&◌, ◌||◌, if◌then◌else◌, ltb, Option, none, some, ◌∙◌, ap,
  ◌≡◌, refl, sym, subst, arith, ◌⊎◌, inl, inr, Bool-cases, Option-cases, some-injective,
}
use be_code_redux.Schedule.Cron.{CronExpr, has_bit}
use be_code_redux.Schedule.Cron.Loops.{first_from, FirstAt, first_from-FirstAt, first_from-none}

pub record Day : Type 0 where
  pub month : ℕ
  pub day : ℕ
  pub weekday : ℕ

-- dayMatches
unfoldable pub day_matches : CronExpr → Day → Bool
day_matches e t =
    let dom = has_bit e.dom t.day in
    let dow = has_bit e.dow t.weekday in
    if not (has_bit e.mon t.month)
    then false
    else if not e.dom_star && not e.dow_star
    then dom || dow
    else dom && dow

-- 5*366 days
abbrev pub day_limit : ℕ
day_limit = 1830

compared : (i j : ℕ) → (i < j) ⊎ ((i ≡ j) ⊎ (j < i))
compared i j = elim (Bool-cases (ltb i j)) [
  | inl a ↦ inl (ground arith)
  | inr a ↦ elim (Bool-cases (ltb j i)) [
    | inl b ↦ inr (inr (ground arith))
    | inr b ↦ inr (inl (ground arith))
  ]
]

module _ (day : ℕ → Day) (wall : ℕ → ℕ → ℕ → ℕ) (e : CronExpr) (after : ℕ) where
  unfoldable pub try_minute : ℕ → ℕ → ℕ → Option ℕ
  try_minute i h m =
      let t = wall i h m in if has_bit e.min m then if ltb after t then some t else none else none

  unfoldable pub try_hour : ℕ → ℕ → Option ℕ
  unfolding first_from try_minute
  try_hour i h = if has_bit e.hour h then first_from (try_minute i h) 0 60 else none

  unfoldable pub try_day : ℕ → Option ℕ
  unfolding day_matches first_from try_hour
  try_day i = if day_matches e (day i) then first_from (try_hour i) 0 24 else none

  -- next
  unfoldable pub next : Option ℕ
  unfolding first_from try_day
  next = first_from try_day 0 day_limit

  -- The expression names this minute of this day.
  pub record Matches (i h m : ℕ) : Type 0 where
    pub day_in : i < day_limit
    pub hour_in : h < 24
    pub minute_in : m < 60
    pub day_set : day_matches e (day i) ≡ true
    pub hour_set : has_bit e.hour h ≡ true
    pub minute_set : has_bit e.min m ≡ true

  -- Of two matching minutes, the one with the later clock reading is no earlier instant.
  abbrev pub IsMonotone : Type 0
  IsMonotone =
      (i h m i' h' m' : ℕ)
      → Matches i h m
      → Matches i' h' m'
      → (i < i') ⊎ ((i ≡ i') × ((h < h') ⊎ ((h ≡ h') × (m ≤ m'))))
      → wall i h m ≤ wall i' h' m'

  -- The earliest matching instant behind `after`, or none of five years.
  abbrev pub IsNext : Option ℕ → Type 0
  IsNext none = (i h m : ℕ) → Matches i h m → wall i h m ≤ after
  IsNext (some t) =
      (after < t)
      × ((i : ℕ) × (h : ℕ) × (m : ℕ) × Matches i h m × (t ≡ wall i h m))
      × ((i h m : ℕ) → Matches i h m → after < wall i h m → t ≤ wall i h m)

  minute_none : (i h m : ℕ) → try_minute i h m ≡ none → Matches i h m → wall i h m ≤ after
  unfolding try_minute
  minute_none i h m k x = elim (Bool-cases (ltb after (wall i h m))) [
    | inr b ↦ ground arith
    | inl b ↦ cc (rw (x.minute_set, b) at k)
  ]

  hour_none : (i h m : ℕ) → try_hour i h ≡ none → Matches i h m → wall i h m ≤ after
  unfolding try_hour
  hour_none i h m k x =
      minute_none i h m
        (first_from-none (try_minute i h) 0 60 (rw x.hour_set at k) m (omega arith)
          (omega (arith, x.minute_in)))
        x

  day_none : (i h m : ℕ) → try_day i ≡ none → Matches i h m → wall i h m ≤ after
  unfolding try_day
  day_none i h m k x =
      hour_none i h m
        (first_from-none (try_hour i) 0 24 (rw x.day_set at k) h (omega arith)
          (omega (arith, x.hour_in)))
        x

  minute_some :
      (i h m t : ℕ)
      → try_minute i h m ≡ some t
      → (has_bit e.min m ≡ true) × (t ≡ wall i h m) × (after < t)
  unfolding try_minute
  minute_some i h m t k = elim (Bool-cases (has_bit e.min m)) [
    | inr b ↦ cc (rw b at k)
    | inl b ↦ elim (Bool-cases (ltb after (wall i h m))) [
      | inr c ↦ cc (rw (b, c) at k)
      | inl c ↦
          let same : wall i h m ≡ t = some-injective (rw (b, c) at k) in
          (b, sym same, subst (λ u. after < u) same (ground arith))
    ]
  ]

  hour_some :
      (i h t : ℕ)
      → try_hour i h ≡ some t
      → (has_bit e.hour h ≡ true) × FirstAt (try_minute i h) 0 60 t
  unfolding try_hour
  hour_some i h t k = elim (Bool-cases (has_bit e.hour h)) [
    | inr b ↦ cc (rw b at k)
    | inl b ↦ (b, first_from-FirstAt (try_minute i h) 0 60 t (rw b at k))
  ]

  day_some :
      (i t : ℕ) → try_day i ≡ some t → (day_matches e (day i) ≡ true) × FirstAt (try_hour i) 0 24 t
  unfolding try_day
  day_some i t k = elim (Bool-cases (day_matches e (day i))) [
    | inr b ↦ cc (rw b at k)
    | inl b ↦ (b, first_from-FirstAt (try_hour i) 0 24 t (rw b at k))
  ]

  -- On the day of the first result, no earlier minute is behind `after`.
  at_day :
      (t p : ℕ)
      → IsMonotone
      → (hours : FirstAt (try_hour p) 0 24 t)
      → (minutes : FirstAt (try_minute p hours.place) 0 60 t) → Matches p hours.place minutes.place
      → t ≡ wall p hours.place minutes.place
      → (h m : ℕ) → Matches p h m
      → after < wall p h m
      → t ≤ wall p h m
  at_day t p mono hours minutes own same h m x behind = elim (compared h hours.place) [
    | inl below ↦
        absurd (omega (arith, behind, hour_none p h m (hours.earlier h (omega arith) below) x))
    | inr (inr above) ↦
        rw same (mono p hours.place minutes.place p h m own x (inr (refl, inl above)))
    | inr (inl at) ↦ elim (compared m minutes.place) [
      | inl below ↦ absurd (
          omega (
            arith,
            behind,
            minute_none p h m
                (ap (λ g. try_minute p g m) at ∙ minutes.earlier m (omega arith) below) x,
          ))
      | inr c ↦
          let le : minutes.place ≤ m = elim c [
            | inl e ↦ omega (arith, e)
            | inr l ↦ omega (arith, l)
          ] in
          rw same (mono p hours.place minutes.place p h m own x (inr (refl, inr (sym at, le))))
    ]
  ]

  least : (t : ℕ) → IsMonotone → FirstAt try_day 0 day_limit t → IsNext (some t)
  least t mono d =
      let (day_set, hours) = day_some d.place t d.found in
      let (hour_set, minutes) = hour_some d.place hours.place t hours.found in
      let (minute_set, same, later) =
        minute_some d.place hours.place minutes.place t minutes.found in
      let own : Matches d.place hours.place minutes.place = record {
        day_in = d.before;
        hour_in = hours.before;
        minute_in = minutes.before;
        day_set = day_set;
        hour_set = hour_set;
        minute_set = minute_set;
      } in
      (
        later,
        (d.place, hours.place, minutes.place, own, same),
        λ i h m x behind. elim (compared i d.place) [
          | inl below ↦
              absurd (omega (arith, behind, day_none i h m (d.earlier i (omega arith) below) x))
          | inr (inr above) ↦
              rw same (mono d.place hours.place minutes.place i h m own x (inl above))
          | inr (inl day_is) ↦
              subst (λ p. Matches p h m → after < wall p h m → t ≤ wall p h m) (sym day_is)
                (at_day t d.place mono hours minutes own same h m) x behind
        ],
      )

-- Where a later clock reading is never an earlier instant, next returns the earliest matching
-- minute that is behind `after`; it returns none where no matching minute of the 1,830 days is.
pub next-IsNext :
    (day : ℕ → Day) (wall : ℕ → ℕ → ℕ → ℕ) (e : CronExpr) (after : ℕ)
    → IsMonotone day wall e after
    → IsNext day wall e after (next day wall e after)
unfolding next
next-IsNext day wall e after mono =
    elim (Option-cases (first_from (try_day day wall e after) 0 day_limit)) [
      | inr (t, k) ↦ subst (IsNext day wall e after) (sym k) (
          least day wall e after t mono
            (first_from-FirstAt (try_day day wall e after) 0 day_limit t k))
      | inl k ↦ subst (IsNext day wall e after) (sym k) (λ i h m x.
          day_none day wall e after i h m
            (first_from-none (try_day day wall e after) 0 day_limit k i (omega arith)
              (omega (arith, x.day_in)))
            x)
    ]
