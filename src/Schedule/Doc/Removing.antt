-- ===== src/Schedule/Doc/Removing.antt =====
-- Remove on the map that a document stands for.
use be_code_redux.Base.{
  List, [], ◌∷◌, false, Text, text_keyed, ◌==◌, none, ◌≡◌, refl, ap, ◌∙◌, Bool-cases, Option-cases,
  inl, inr, eq_of_beq, beq_self, All, Pairwise, subst,
}
use be_code_redux.Schedule.Doc.{Schedule, Section, Doc, remove_section, remove, read_sections}
use be_code_redux.Schedule.Doc.Map.{
  entry, meaning, erased, unread, IsMap, same_test, other_test, Apart, is_some,
}

entry-apart :
    (id : Text) (ss : List Schedule) → All (λ s. (id == s.id) ≡ false) ss → entry id ss ≡ none
entry-apart id [] h = refl
entry-apart id (s ∷ ss) (hs, h) = elim (Bool-cases (s.id == id)) [
  | inr e ↦ rw e (entry-apart id ss h)
  | inl e ↦ let same : s.id ≡ id = eq_of_beq e in cc (hs, ap (λ z. id == z) same, beq_self id)
]

module _ (gone : Text) where
  remove-entry :
      (xs : List Section) (id : Text)
      → Pairwise Apart (read_sections xs)
      → entry id (read_sections (remove_section gone xs).0)
        ≡ erased gone (λ i. entry i (read_sections xs)) id
  unfolding remove_section
  remove-entry [] id h = elim (Bool-cases (gone == id)) [ inl e ↦ rw e refl | inr e ↦ rw e refl ]
  remove-entry (x ∷ xs) id h = elim (Option-cases x.sched) [
    | inl k ↦ rw k (remove-entry xs id (rw k at h))
    | inr (t, k) ↦
        let (ht, hs) : All (Apart t) (read_sections xs) × Pairwise Apart (read_sections xs) =
          rw k at h in
        rw k (elim (Bool-cases (t.id == gone)) [
          | inl e ↦ rw e (elim (Bool-cases (gone == id)) [
            | inl a ↦
                let there : t.id ≡ id = eq_of_beq e ∙ eq_of_beq a in
                rw a (
                  entry-apart id (read_sections xs)
                    (subst (λ z. All (λ u. (z == u.id) ≡ false) (read_sections xs)) there ht))
            | inr a ↦ rw a (rw (same_test t.id gone id e ∙ a) refl)
          ])
          | inr e ↦ rw e (elim (Bool-cases (t.id == id)) [
            | inl b ↦
                let apart : (gone == id) ≡ false = elim (Bool-cases (gone == id)) [
                  | inr a ↦ a
                  | inl a ↦ cc (other_test t.id gone id e a, b)
                ] in
                rw b (rw apart refl)
            | inr b ↦ rw b (remove-entry xs id hs)
          ])
        ])
  ]

  remove-All :
      (P : Schedule → Type 0) (xs : List Section)
      → All P (read_sections xs)
      → All P (read_sections (remove_section gone xs).0)
  unfolding remove_section
  remove-All P [] h = tt
  remove-All P (x ∷ xs) h = elim (Option-cases x.sched) [
    | inl k ↦ rw k (remove-All P xs (rw k at h))
    | inr (t, k) ↦
        let (pt, hs) : P t × All P (read_sections xs) = rw k at h in
        rw k (elim (Bool-cases (t.id == gone)) [
          | inl e ↦ rw e hs
          | inr e ↦ rw e (pt, remove-All P xs hs)
        ])
  ]

  remove-Pairwise :
      (xs : List Section)
      → Pairwise Apart (read_sections xs)
      → Pairwise Apart (read_sections (remove_section gone xs).0)
  unfolding remove_section
  remove-Pairwise [] h = tt
  remove-Pairwise (x ∷ xs) h = elim (Option-cases x.sched) [
    | inl k ↦ rw k (remove-Pairwise xs (rw k at h))
    | inr (t, k) ↦
        let (ht, hs) : All (Apart t) (read_sections xs) × Pairwise Apart (read_sections xs) =
          rw k at h in
        rw k (elim (Bool-cases (t.id == gone)) [
          | inl e ↦ rw e hs
          | inr e ↦ rw e (remove-All (Apart t) xs ht, remove-Pairwise xs hs)
        ])
  ]

  remove-unread : (xs : List Section) → unread (remove_section gone xs).0 ≡ unread xs
  unfolding remove_section
  remove-unread [] = refl
  remove-unread (x ∷ xs) = elim (Option-cases x.sched) [
    | inl k ↦ rw k (ap (λ l. (x.raw, x.fault) ∷ l) (remove-unread xs))
    | inr (t, k) ↦
        rw k
          (elim (Bool-cases (t.id == gone)) [ inl e ↦ rw e refl | inr e ↦ rw e (remove-unread xs) ])
  ]

  remove-found :
      (xs : List Section) → (remove_section gone xs).1 ≡ is_some (entry gone (read_sections xs))
  unfolding remove_section
  remove-found [] = refl
  remove-found (x ∷ xs) = elim (Option-cases x.sched) [
    | inl k ↦ rw k (remove-found xs)
    | inr (t, k) ↦
        rw k
          (elim (Bool-cases (t.id == gone)) [ inl e ↦ rw e refl | inr e ↦ rw e (remove-found xs) ])
  ]

-- Remove takes one entry away from the map that a document with one schedule for each id stands
-- for, and reports whether there was one; the ids stay apart, and the sections that could not be
-- read stay as they are.
pub remove-refines :
    (id : Text) (d : Doc)
    → IsMap d
    → ((i : Text) → meaning (remove id d).0 i ≡ erased id (meaning d) i)
      × ((remove id d).1 ≡ is_some (meaning d id))
      × IsMap (remove id d).0
      × (unread (remove id d).0.sections ≡ unread d.sections)
unfolding remove
remove-refines id d h = (
  λ i. remove-entry id d.sections i h,
  remove-found id d.sections,
  remove-Pairwise id d.sections h,
  remove-unread id d.sections,
)
