-- ===== src/Api/Budget.antt =====
-- internal/api/budget.go: the requests of the last hour and the one in flight, for each app. Times
-- are in nanoseconds. A limit of 0 stands for the source's 0 or less.
pub mod Window
pub mod Inflight
mod Tests
use be_code_redux.Base.{
  ℕ, zero, suc, ◌+◌, ◌-◌, ◌*◌, ◌≤◌, ◌<◌, List, [], ◌∷◌, ◌++◌, Bool, true, false, Text, text_keyed,
  nat_keyed, ◌==◌, if◌then◌else◌, leb, Option, none, some, Assoc, lookup, insert, erase, length,
}

pub record Budgets : Type 0 where
  pub times : Assoc Text (List ℕ)
  pub inflight : Assoc Text Bool

abbrev pub new_budgets : Budgets
new_budgets = record { times = []; inflight = [] }

abbrev pub hour : ℕ
hour = 3_600_000_000_000

-- b.times[app]
unfoldable pub times_of : Budgets → Text → List ℕ
times_of b app = elim (lookup app b.times) [ none ↦ [] | some ts ↦ ts ]

-- The loop that leaves out the requests that are an hour old.
unfoldable pub expire : ℕ → List ℕ → List ℕ
expire now [] = []
expire now (t ∷ ts) = let rest = expire now ts in if leb (t + hour) now then rest else t ∷ ts

abbrev pub oldest : List ℕ → ℕ
oldest [] = 0
oldest (t ∷ ts) = t

abbrev pub keep_times : Budgets → Text → List ℕ → Budgets
keep_times b app ts = record b { times = insert app ts b.times }

-- take: the budgets after it, the time to wait, and whether the request may go.
unfoldable pub take_slot : Budgets → Text → ℕ → ℕ → Budgets × (ℕ × Bool)
unfolding times_of expire
take_slot b app per_hour now =
    let ts = expire now (times_of b app) in
    if per_hour == 0
    then (b, (0, true))
    else if leb per_hour (length ts)
    then (keep_times b app ts, (oldest ts + hour - now, false))
    else (keep_times b app (ts ++ now ∷ []), (0, true))

-- b.inflight[app]
unfoldable pub in_flight : Budgets → Text → Bool
in_flight b app = elim (lookup app b.inflight) [ none ↦ false | some busy ↦ busy ]

-- begin: the budgets after it and whether the app has its slot.
unfoldable pub begin : Budgets → Text → Budgets × Bool
unfolding in_flight
begin b app =
    if in_flight b app
    then (b, false)
    else (record b { inflight = insert app true b.inflight }, true)

-- The function that begin returns; `used` is its sync.Once.
unfoldable pub end_slot : Bool → Budgets → Text → Budgets
end_slot used b app = if used then b else record b { inflight = erase app b.inflight }
