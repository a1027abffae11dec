-- ===== src/Api/Budget/Tests.antt =====
-- Runs of the hour's budget, and its theorems at them.
use be_code_redux.Base.{
  ◌+◌, ◌-◌, ◌≢◌, ◌≤◌, ◌<◌, [], ◌∷◌, true, false, codes, Text, text_keyed, ◌≡◌, ◌↔◌, refl, length,
  arith, lookup, insert, erase, All,
}
use be_code_redux.Api.Budget.{
  Budgets, hour, times_of, expire, take_slot, begin, end_slot, in_flight, new_budgets,
}
use be_code_redux.Api.Budget.Inflight.{begin-end_slot}
use be_code_redux.Api.Budget.Window.{Ascending, recent, take_slot-recent, take_slot-retry}

program : Unit {0}
unfolding times_of expire take_slot begin end_slot in_flight lookup insert erase
program = tt

abbrev app : Text
app = codes "app"

abbrev two_asked : Budgets
two_asked = record { times = (app, 5 ∷ 9 ∷ []) ∷ []; inflight = [] }

refused : (take_slot two_asked app 2 11).1 ≡ (hour - 6, false)
unfolding program
refused = refl

one_slot : (begin (begin new_budgets app).0 app).1 ≡ false
unfolding program
one_slot = refl

slot_back : (begin (end_slot false (begin new_budgets app).0 app) app).1 ≡ true
unfolding program
slot_back = refl

its_times : times_of two_asked app ≡ 5 ∷ 9 ∷ []
unfolding program
its_times = refl

in_order : Ascending (times_of two_asked app)
in_order = rw its_times ((omega arith, tt), (tt, tt))

not_more : length (times_of two_asked app) ≤ 2
not_more = rw its_times (omega arith)

take_slot-recent_example :
    ((take_slot two_asked app 2 11).1.1 ≡ true) ↔ (recent 11 (times_of two_asked app) < 2)
take_slot-recent_example = take_slot-recent two_asked app 2 11 (omega arith) in_order

denied : (take_slot two_asked app 2 11).1.1 ≡ false
unfolding program
denied = refl

take_slot-retry_example :
    (take_slot (take_slot two_asked app 2 11).0 app 2 (11 + (take_slot two_asked app 2 11).1.0)).1.1
    ≡ true
take_slot-retry_example = take_slot-retry two_asked app 2 11 not_more denied

all_past : All (λ t. t ≤ 11) (times_of two_asked app)
all_past = rw its_times (omega arith, (omega arith, tt))

begin-end_slot_example :
    ((begin (begin new_budgets app).0 app).1 ≡ false)
    × ((begin (end_slot false new_budgets app) app).1 ≡ true)
    × ((begin (begin new_budgets app).0 (codes "b")).1 ≡ (begin new_budgets (codes "b")).1)
    × ((begin (end_slot false new_budgets app) (codes "b")).1 ≡ (begin new_budgets (codes "b")).1)
begin-end_slot_example = begin-end_slot new_budgets app (codes "b") other_app
  where
    other_app : app ≢ codes "b"
    other_app e = cc
