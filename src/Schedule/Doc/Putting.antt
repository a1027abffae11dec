-- ===== src/Schedule/Doc/Putting.antt =====
-- Put on the map that a document stands for.
use be_code_redux.Base.{
  List, [], ◌∷◌, Text, text_keyed, ◌==◌, ◌≡◌, refl, sym, ap, ◌∙◌, Bool-cases, Option-cases, inl,
  inr, All, All-map, Pairwise,
}
use be_code_redux.Schedule.Doc.{Schedule, Section, Doc, put_section, put, read_sections}
use be_code_redux.Schedule.Doc.Map.{
  entry, meaning, written, unread, IsMap, same_test, other_test, Apart,
}

module _ (s : Schedule) where
  put-entry :
      (xs : List Section) (id : Text)
      → entry id (read_sections (put_section s xs)) ≡ written s (λ i. entry i (read_sections xs)) id
  unfolding put_section
  put-entry [] id = refl
  put-entry (x ∷ xs) id = elim (Option-cases x.sched) [
    | inl k ↦ rw k (put-entry xs id)
    | inr (t, k) ↦ rw k (elim (Bool-cases (t.id == s.id)) [
      | inl e ↦ rw e (elim (Bool-cases (s.id == id)) [
        | inl a ↦ rw a refl
        | inr a ↦ rw a (rw (same_test t.id s.id id e ∙ a) refl)
      ])
      | inr e ↦ rw e (elim (Bool-cases (s.id == id)) [
        | inl a ↦ rw (other_test t.id s.id id e a) (put-entry xs id ∙ rw a refl)
        | inr a ↦ rw a (rw (put-entry xs id) (rw a refl))
      ])
    ])
  ]

  put-All :
      (P : Schedule → Type 0) (xs : List Section)
      → P s
      → All P (read_sections xs)
      → All P (read_sections (put_section s xs))
  unfolding put_section
  put-All P [] ps h = (ps, tt)
  put-All P (x ∷ xs) ps h = elim (Option-cases x.sched) [
    | inl k ↦ rw k (put-All P xs ps (rw k at h))
    | inr (t, k) ↦
        let (pt, hs) : P t × All P (read_sections xs) = rw k at h in
        rw k (elim (Bool-cases (t.id == s.id)) [
          | inl e ↦ rw e (ps, hs)
          | inr e ↦ rw e (pt, put-All P xs ps hs)
        ])
  ]

  put-unread : (xs : List Section) → unread (put_section s xs) ≡ unread xs
  unfolding put_section
  put-unread [] = refl
  put-unread (x ∷ xs) = elim (Option-cases x.sched) [
    | inl k ↦ rw k (ap (λ l. (x.raw, x.fault) ∷ l) (put-unread xs))
    | inr (t, k) ↦
        rw k (elim (Bool-cases (t.id == s.id)) [ inl e ↦ rw e refl | inr e ↦ rw e (put-unread xs) ])
  ]

put-Pairwise :
    (s : Schedule) (xs : List Section)
    → Pairwise Apart (read_sections xs)
    → Pairwise Apart (read_sections (put_section s xs))
unfolding put_section
put-Pairwise s [] h = (tt, tt)
put-Pairwise s (x ∷ xs) h = elim (Option-cases x.sched) [
  | inl k ↦ rw k (put-Pairwise s xs (rw k at h))
  | inr (t, k) ↦
      let (ht, hs) : All (Apart t) (read_sections xs) × Pairwise Apart (read_sections xs) =
        rw k at h in
      rw k (elim (Bool-cases (t.id == s.id)) [
        | inl e ↦
            rw e (All-map (λ u n. sym (same_test t.id s.id u.id e) ∙ n) (read_sections xs) ht, hs)
        | inr e ↦ rw e (put-All s (Apart t) xs e ht, put-Pairwise s xs hs)
      ])
]

-- Put writes one entry of the map that a document with one schedule for each id stands for; the
-- ids stay apart, and the sections that could not be read stay as they are.
pub put-refines :
    (s : Schedule) (d : Doc)
    → IsMap d
    → ((id : Text) → meaning (put s d) id ≡ written s (meaning d) id)
      × IsMap (put s d)
      × (unread (put s d).sections ≡ unread d.sections)
unfolding put
put-refines s d h = (put-entry s d.sections, put-Pairwise s d.sections h, put-unread s d.sections)
