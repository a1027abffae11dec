-- ===== src/Api/Budget/Window.antt =====
-- The sliding hour: which requests take lets through.
use be_code_redux.Base.{
  ℕ, ◌+◌, ◌-◌, ◌≤◌, ◌<◌, List, [], ◌∷◌, ◌++◌, true, false, Text, text_keyed, nat_keyed, ◌==◌,
  if◌then◌else◌, leb, length, ◌≡◌, ◌↔◌, refl, ◌∙◌, arith, Bool-cases, inl, inr, ◌⊎◌, All, Pairwise,
  Pairwise-snoc, lookup-insert, beq_self, length-append,
}
use be_code_redux.Api.Budget.{Budgets, hour, times_of, expire, oldest, keep_times, take_slot}

-- Oldest first.
abbrev pub Ascending : List ℕ → Type 0
Ascending ts = Pairwise (λ t u. t ≤ u) ts

-- How many of the times lie less than an hour back.
abbrev pub recent : ℕ → List ℕ → ℕ
recent now [] = 0
recent now (t ∷ ts) = (if leb (t + hour) now then 0 else 1) + recent now ts

all_recent :
    (now t : ℕ) (ts : List ℕ) → now < t + hour → All (λ u. t ≤ u) ts → recent now ts ≡ length ts
all_recent now t [] h a = refl
all_recent now t (u ∷ ts) h (le, a) = ground (arith, all_recent now t ts h a)

length-expire : (now : ℕ) (ts : List ℕ) → Ascending ts → length (expire now ts) ≡ recent now ts
unfolding expire
length-expire now [] h = refl
length-expire now (t ∷ ts) (first, h) = elim (Bool-cases (leb (t + hour) now)) [
  | inl e ↦ rw e (omega (arith, length-expire now ts h))
  | inr e ↦ rw e (omega (arith, all_recent now t ts (ground arith) first))
]

length-expire-le : (now : ℕ) (ts : List ℕ) → length (expire now ts) ≤ length ts
unfolding expire
length-expire-le now [] = omega arith
length-expire-le now (t ∷ ts) = ground (arith, length-expire-le now ts)

times_of-keep_times :
    (b : Budgets) (app other : Text) (ts : List ℕ)
    → times_of (keep_times b app ts) other ≡ (if app == other then ts else times_of b other)
unfolding times_of
times_of-keep_times b app other ts =
    rw (lookup-insert app other ts b.times, times_of)
      (elim (Bool-cases (app == other)) [ inl e ↦ rw e refl | inr e ↦ rw e refl ])

-- Where the app has a limit and its times are oldest first, take lets a request through exactly
-- when fewer than the limit lie less than an hour back.
pub take_slot-recent :
    (b : Budgets) (app : Text) (per_hour now : ℕ)
    → 0 < per_hour
    → Ascending (times_of b app)
    → ((take_slot b app per_hour now).1.1 ≡ true) ↔ (recent now (times_of b app) < per_hour)
unfolding take_slot
take_slot-recent b app per_hour now h a = ground (arith, length-expire now (times_of b app) a)

-- Once the oldest request is an hour back, there is one less.
retry-lt :
    (now : ℕ) (ts : List ℕ)
    → 0 < length ts
    → length (expire (now + (oldest ts + hour - now)) ts) < length ts
unfolding expire
retry-lt now [] h = omega arith
retry-lt now (t ∷ ts) h =
    let later : leb (t + hour) (now + (t + hour - now)) ≡ true = ground arith in
    rw later (omega (arith, length-expire-le (now + (t + hour - now)) ts))

take_slot_granted :
    (b : Budgets) (app : Text) (per_hour now : ℕ)
    → length (expire now (times_of b app)) < per_hour
    → (take_slot b app per_hour now).1.1 ≡ true
unfolding take_slot
take_slot_granted b app per_hour now h = ground arith

-- What a refusal leaves and returns.
record Refusal (b : Budgets) (app : Text) (per_hour now : ℕ) (ts : List ℕ) : Type 0 where
  some_limit : 0 < per_hour
  used_up : per_hour ≤ length ts
  outcome : take_slot b app per_hour now ≡ (keep_times b app ts, (oldest ts + hour - now, false))

refusal :
    (b : Budgets) (app : Text) (per_hour now : ℕ)
    → (take_slot b app per_hour now).1.1 ≡ false
    → Refusal b app per_hour now (expire now (times_of b app))
unfolding take_slot
refusal b app per_hour now denied =
    let ts = expire now (times_of b app) in
    let limited : (per_hour == 0) ≡ false = ground arith in
    let full : leb per_hour (length ts) ≡ true = ground arith in
    record {
      some_limit = ground arith;
      used_up = ground arith;
      outcome = rw limited (rw full refl);
    }

-- A refused app that had at most its limit may go once the time it was told has passed.
pub take_slot-retry :
    (b : Budgets) (app : Text) (per_hour now : ℕ)
    → length (times_of b app) ≤ per_hour
    → (take_slot b app per_hour now).1.1 ≡ false
    → (take_slot
        (take_slot b app per_hour now).0
        app
        per_hour
        (now + (take_slot b app per_hour now).1.0)).1.1
      ≡ true
take_slot-retry b app per_hour now few denied =
    let ts = expire now (times_of b app) in
    let r = refusal b app per_hour now denied in
    let after : times_of (keep_times b app ts) app ≡ ts =
      times_of-keep_times b app app ts ∙ rw (beq_self app) refl in
    rw r.outcome (
      take_slot_granted (keep_times b app ts) app per_hour (now + (oldest ts + hour - now)) (
        rw after (
          omega (
            arith,
            retry-lt now ts (omega (arith, r.some_limit, r.used_up)),
            few,
            length-expire-le now (times_of b app),
          ))))

take_slot-times :
    (b : Budgets) (app : Text) (per_hour now : ℕ)
    → 0 < per_hour
    → (times_of (take_slot b app per_hour now).0 app ≡ expire now (times_of b app))
      ⊎ ((times_of (take_slot b app per_hour now).0 app ≡ expire now (times_of b app) ++ now ∷ [])
          × (length (expire now (times_of b app)) < per_hour))
unfolding take_slot
take_slot-times b app per_hour now h =
    let ts = expire now (times_of b app) in
    let limited : (per_hour == 0) ≡ false = ground arith in
    elim (Bool-cases (leb per_hour (length ts))) [
      | inl e ↦ rw limited (rw e (inl (times_of-keep_times b app app ts ∙ rw (beq_self app) refl)))
      | inr e ↦ rw limited (
          rw e (
            inr (
              times_of-keep_times b app app (ts ++ now ∷ []) ∙ rw (beq_self app) refl,
              ground arith,
            )))
    ]

expire-Ascending : (now : ℕ) (ts : List ℕ) → Ascending ts → Ascending (expire now ts)
unfolding expire
expire-Ascending now [] h = tt
expire-Ascending now (t ∷ ts) (first, h) = elim (Bool-cases (leb (t + hour) now)) [
  | inl e ↦ rw e (expire-Ascending now ts h)
  | inr e ↦ rw e (first, h)
]

expire-All : (P : ℕ → Type 0) (now : ℕ) (ts : List ℕ) → All P ts → All P (expire now ts)
unfolding expire
expire-All P now [] h = tt
expire-All P now (t ∷ ts) (first, h) = elim (Bool-cases (leb (t + hour) now)) [
  | inl e ↦ rw e (expire-All P now ts h)
  | inr e ↦ rw e (first, h)
]

-- An app with a limit keeps its times oldest first and at most as many as its limit, where the
-- clock does not go back.
pub take_slot-Ascending :
    (b : Budgets) (app : Text) (per_hour now : ℕ)
    → 0 < per_hour
    → Ascending (times_of b app)
    → length (times_of b app) ≤ per_hour
    → All (λ t. t ≤ now) (times_of b app)
    → Ascending (times_of (take_slot b app per_hour now).0 app)
      × (length (times_of (take_slot b app per_hour now).0 app) ≤ per_hour)
take_slot-Ascending b app per_hour now h a few past =
    let ts = expire now (times_of b app) in
    let up : Ascending ts = expire-Ascending now (times_of b app) a in
    let less : length ts ≤ length (times_of b app) = length-expire-le now (times_of b app) in
    elim (take_slot-times b app per_hour now h) [
      | inl e ↦ rw e (up, omega arith)
      | inr (e, room) ↦ rw e (
        Pairwise-snoc (λ t u. t ≤ u) ts now up
            (expire-All (λ t. t ≤ now) now (times_of b app) past),
        omega (arith, length-append ts (now ∷ [])),
      )
    ]
