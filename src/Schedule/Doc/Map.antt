-- ===== src/Schedule/Doc/Map.antt =====
-- A document as a map from ids to schedules, and the sections beside it.
use be_code_redux.Base.{
  List, [], ◌∷◌, Bool, true, false, Text, text_keyed, ◌==◌, if◌then◌else◌, Option, none, some, ◌≡◌,
  sym, ap, ◌∙◌, Bool-cases, inl, inr, eq_of_beq, beq_self, Pairwise,
}
use be_code_redux.Schedule.Doc.{Schedule, Section, Doc, schedules}

-- The schedule with an id, in a list of schedules.
abbrev pub entry : Text → List Schedule → Option Schedule
entry id [] = none
entry id (s ∷ ss) = if s.id == id then some s else entry id ss

-- The abstract document: what stands under an id.
abbrev pub meaning : Doc → Text → Option Schedule
meaning d id = entry id (schedules d)

-- The maps with an entry written, and with one taken away.
abbrev pub written : Schedule → (Text → Option Schedule) → Text → Option Schedule
written s f id = if s.id == id then some s else f id

abbrev pub erased : Text → (Text → Option Schedule) → Text → Option Schedule
erased gone f id = if gone == id then none else f id

-- The sections that could not be read, with the reasons.
abbrev pub unread : List Section → List (Text × Text)
unread [] = []
unread (x ∷ xs) = elim x.sched [ none ↦ (x.raw, x.fault) ∷ unread xs | some s ↦ unread xs ]

-- No two schedules have one id.
abbrev pub IsMap : Doc → Type 0
IsMap d = Pairwise (λ s t. (s.id == t.id) ≡ false) (schedules d)

pub same_test : (a b c : Text) → (a == b) ≡ true → (a == c) ≡ (b == c)
same_test a b c e = ap (λ z. z == c) (eq_of_beq e)

-- Two names of one text are the same.
pub other_test : (a b c : Text) → (a == b) ≡ false → (b == c) ≡ true → (a == c) ≡ false
other_test a b c ne e = elim (Bool-cases (a == c)) [
  | inr k ↦ k
  | inl k ↦
      let same : a ≡ b = eq_of_beq k ∙ sym (eq_of_beq e) in
      cc (ne, ap (λ z. a == z) same, beq_self a)
]

abbrev pub Apart : Schedule → Schedule → Type 0
Apart s t = (s.id == t.id) ≡ false

abbrev pub is_some : Option Schedule → Bool
is_some none = false
is_some (some s) = true
