-- ===== src/Api/Budget/Inflight.antt =====
-- The one request in flight of each app.
use be_code_redux.Base.{
  Bool, true, false, not, Text, text_keyed, ◌==◌, eq_of_beq, if◌then◌else◌, ◌≡◌, ◌≢◌, refl, sym, ap,
  ◌∙◌, Bool-cases, inl, inr, lookup-insert, lookup-erase, beq_self,
}
use be_code_redux.Api.Budget.{Budgets, in_flight, begin, end_slot}

in_flight-begin :
    (b : Budgets) (app other : Text)
    → in_flight (begin b app).0 other ≡ (if app == other then true else in_flight b other)
unfolding begin in_flight
in_flight-begin b app other = elim (Bool-cases (in_flight b app)) [
  | inl e ↦ rw e (elim (Bool-cases (app == other)) [
    | inl t ↦ rw t (ap (in_flight b) (sym (eq_of_beq t)) ∙ e)
    | inr t ↦ rw t refl
  ])
  | inr e ↦ rw e (
      rw (lookup-insert app other true b.inflight, in_flight)
        (elim (Bool-cases (app == other)) [ inl t ↦ rw t refl | inr t ↦ rw t refl ]))
]

in_flight-end_slot :
    (b : Budgets) (app other : Text)
    → in_flight (end_slot false b app) other ≡ (if app == other then false else in_flight b other)
unfolding end_slot in_flight
in_flight-end_slot b app other =
    rw (lookup-erase app other b.inflight, in_flight)
      (elim (Bool-cases (app == other)) [ inl t ↦ rw t refl | inr t ↦ rw t refl ])

begin-in_flight :
    (b : Budgets) (app : Text) (v : Bool) → in_flight b app ≡ v → (begin b app).1 ≡ not v
unfolding begin
begin-in_flight b app true e = rw e refl
begin-in_flight b app false e = rw e refl

-- After begin an app has no slot to claim; after the function that begin returned it has one; and
-- neither changes whether another app has one.
pub begin-end_slot :
    (b : Budgets) (app other : Text)
    → app ≢ other
    → ((begin (begin b app).0 app).1 ≡ false)
      × ((begin (end_slot false b app) app).1 ≡ true)
      × ((begin (begin b app).0 other).1 ≡ (begin b other).1)
      × ((begin (end_slot false b app) other).1 ≡ (begin b other).1)
begin-end_slot b app other ne =
    let away : (app == other) ≡ false = elim (Bool-cases (app == other)) [
      | inl t ↦ absurd (ne (eq_of_beq t))
      | inr t ↦ t
    ] in
    (
      begin-in_flight (begin b app).0 app true (in_flight-begin b app app ∙ rw (beq_self app) refl),
      begin-in_flight (end_slot false b app) app false
          (in_flight-end_slot b app app ∙ rw (beq_self app) refl),
      begin-in_flight (begin b app).0 other (in_flight b other)
            (in_flight-begin b app other ∙ rw away refl)
          ∙ sym (begin-in_flight b other (in_flight b other) refl),
      begin-in_flight (end_slot false b app) other (in_flight b other)
            (in_flight-end_slot b app other ∙ rw away refl)
          ∙ sym (begin-in_flight b other (in_flight b other) refl),
    )
