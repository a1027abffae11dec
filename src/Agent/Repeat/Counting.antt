-- ===== src/Agent/Repeat/Counting.antt =====
-- A call made again and again with one result is counted.
use be_code_redux.Base.{
  ℕ, zero, suc, ◌+◌, ◌≤◌, ◌<◌, [], ◌∷◌, false, Text, text_keyed, nat_keyed, ◌==◌, Option, none,
  some, length, lookup, insert, lookup-insert_same, beq_self, ◌≡◌, refl, sym, ap, ◌∙◌, subst,
  Bool-cases, inl, inr, ◌⊎◌, ltb, arith,
}
use be_code_redux.Agent.Repeat.{
  Entry, Tracker, repeat_cap, is_exempt, footer, counted, bounded, key_of, note,
}

length-insert : (k : Text) (v : Entry) (seen : Tracker) → length (insert k v seen) ≤ length seen + 1
unfolding insert
length-insert k v [] = omega arith
length-insert k v ((at, w) ∷ seen) = ground (arith, length-insert k v seen)

length-insert_present :
    (k : Text) (v w : Entry) (seen : Tracker)
    → lookup k seen ≡ some w
    → length (insert k v seen) ≡ length seen
unfolding insert lookup
length-insert_present k v w [] h = cc
length-insert_present k v w ((at, u) ∷ seen) h = elim (Bool-cases (at == k)) [
  | inl e ↦ rw e refl
  | inr e ↦ rw e (ap suc (length-insert_present k v w seen (rw e at h)))
]

-- No entry of this call has this result.
abbrev pub IsNew : Text → Text → Tracker → Type 0
IsNew key sum seen = (e : Entry) → lookup key seen ≡ some e → (e.result == sum) ≡ false

module _ (canonical_args : Text → Text) (hash : Text → Text) (name args content : Text)
    (counts : is_exempt name ≡ false) where
  abbrev pub key : Text
  key = key_of canonical_args hash name args

  -- The tracker after so many of these calls.
  abbrev pub again : ℕ → Tracker → Tracker
  again zero seen = seen
  again (suc k) seen = (note canonical_args hash name args content (again k seen)).0

  note-counted :
      (seen : Tracker)
      → length seen < repeat_cap
      → note canonical_args hash name args content seen
        ≡ counted key (hash content) seen (lookup key seen)
  unfolding note
  note-counted seen room =
      let kept : bounded seen ≡ seen = ground arith in
      rw counts (ap (λ s. counted key (hash content) s (lookup key s)) kept)

  abbrev one_more : ℕ → Tracker → Tracker × Option ℕ
  one_more n seen =
      (insert key (record { result = hash content; times = suc n }) seen, footer (suc n))

  note-new :
      (seen : Tracker)
      → length seen < repeat_cap
      → IsNew key (hash content) seen
      → note canonical_args hash name args content seen ≡ one_more 0 seen
  note-new seen room new = note-counted seen room ∙ go (lookup key seen) new
    where
      go :
          (o : Option Entry)
          → ((e : Entry) → o ≡ some e → (e.result == hash content) ≡ false)
          → counted key (hash content) seen o ≡ one_more 0 seen
      go none new = unfold counted in refl
      go (some e) new = unfold counted in rw (new e refl) refl

  note-known :
      (seen : Tracker) (n : ℕ)
      → length seen < repeat_cap
      → lookup key seen ≡ some (record { result = hash content; times = n })
      → note canonical_args hash name args content seen ≡ one_more n seen
  note-known seen n room known =
      note-counted seen room
      ∙ ap (counted key (hash content) seen) known
      ∙ unfold counted in
        rw (beq_self (hash content)) (
          ap (λ m. (insert key (record { result = hash content; times = m }) seen, footer m))
            (omega arith))

  again-known :
      (k : ℕ) (seen : Tracker)
      → length seen + 1 < repeat_cap
      → IsNew key (hash content) seen
      → (lookup key (again (suc k) seen) ≡ some (record { result = hash content; times = suc k }))
        × (length (again (suc k) seen) < repeat_cap)
        × ((note canonical_args hash name args content (again k seen)).1 ≡ footer (suc k))
  again-known zero seen room new =
      let e = note-new seen (omega (arith, room)) new in
      (
        ap (λ r. lookup key r.0) e ∙ lookup-insert_same key _ seen,
        subst (λ r. length r.0 < repeat_cap) (sym e)
            (omega
              (arith, room, length-insert key (record { result = hash content; times = 1 }) seen)),
        ap (λ r. r.1) e,
      )
  again-known (suc k) seen room new =
      let (known, small, f) = again-known k seen room new in
      let e = note-known (again (suc k) seen) (suc k) small known in
      (
        ap (λ r. lookup key r.0) e ∙ lookup-insert_same key _ (again (suc k) seen),
        subst (λ r. length r.0 < repeat_cap) (sym e)
            (omega (
              arith,
              small,
              length-insert_present key (record { result = hash content; times = suc (suc k) }) _
                  (again (suc k) seen) known,
            )),
        ap (λ r. r.1) e,
      )

-- Where the tracker holds at most 254 calls, one that is not exempt and whose result is new to it,
-- made again and again with that result, gets no footer the first two times, and from the third
-- on a footer with the number of times.
pub note-footer :
    (canonical_args hash : Text → Text) (name args content : Text) (k : ℕ) (seen : Tracker)
    (counts : is_exempt name ≡ false)
    → length seen ≤ 254
    → IsNew (key_of canonical_args hash name args) (hash content) seen
    → ((suc k < 3)
        × ((note canonical_args hash name args content
              (again canonical_args hash name args content counts k seen)).1
            ≡ none))
      ⊎ ((3 ≤ suc k)
          × ((note canonical_args hash name args content
                (again canonical_args hash name args content counts k seen)).1
              ≡ some (suc k)))
note-footer canonical_args hash name args content k seen counts room new =
    let (known, small, f) =
      again-known canonical_args hash name args content counts k seen (omega (arith, room)) new in
    elim (Bool-cases (ltb (suc k) 3)) [
      | inl few ↦ inl (ground arith, f ∙ rw few refl)
      | inr many ↦ inr (ground arith, f ∙ rw many refl)
    ]
