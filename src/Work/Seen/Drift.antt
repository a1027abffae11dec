-- ===== src/Work/Seen/Drift.antt =====
-- What a run's reads and writes leave as its baselines, and what Drifted makes of them.
use be_code_redux.Base.{
  List, [], ◌∷◌, ◌++◌, Bool, true, false, Text, text_keyed, ◌==◌, Option, none, some, if◌then◌else◌,
  lookup, lookup-insert, lookup-erase, lookup-insert_apart, eq_of_beq, Bool-cases, inl, inr, ◌≡◌,
  refl, sym, ap, ◌∙◌, arith,
}
use be_code_redux.Work.Seen.{Seen, kept_first, run_read, run_wrote}

-- What a run does to files, as the tools report it.
pub data Event : Type 0 where
  did_read : Text → Text → Event
  did_write : Text → Event

module _ (path : Text) where
  -- The events after the last write of the path, for events with the oldest first.
  unfoldable pub since_write : List Event → List Event → List Event
  since_write [] kept = kept
  since_write (did_read p c ∷ events) kept = since_write events (kept ++ did_read p c ∷ [])
  since_write (did_write p ∷ events) kept = elim (p == path) [
    | true ↦ since_write events []
    | false ↦ since_write events (kept ++ did_write p ∷ [])
  ]

  -- The content of the first read of the path.
  unfoldable pub first_read : List Event → Option Text
  first_read [] = none
  first_read (did_read p c ∷ events) =
      let later = first_read events in if p == path then some c else later
  first_read (did_write p ∷ events) = first_read events

-- The first of two, where there is one.
abbrev or_later : Option Text → Option Text → Option Text
or_later none later = later
or_later (some c) later = some c

or_later-none : (o : Option Text) → or_later o none ≡ o
or_later-none none = refl
or_later-none (some c) = refl

first_read-append :
    (path : Text) (kept events : List Event)
    → first_read path (kept ++ events) ≡ or_later (first_read path kept) (first_read path events)
unfolding first_read
first_read-append path [] events = refl
first_read-append path (did_read p c ∷ kept) events = elim (Bool-cases (p == path)) [
  | inl e ↦ rw e refl
  | inr e ↦ rw e (first_read-append path kept events)
]
first_read-append path (did_write p ∷ kept) events = first_read-append path kept events

module _ (hash : Text → Text) where
  abbrev pub told : Event → Seen → Seen
  told (did_read p c) seen = run_read hash p c seen
  told (did_write p) seen = run_wrote hash p seen

  -- A run that is told of the events.
  unfoldable pub replay : List Event → Seen → Seen
  unfolding run_read run_wrote
  replay [] seen = seen
  replay (e ∷ events) seen = replay events (told e seen)

  abbrev pub hashed : Option Text → Option Text
  hashed none = none
  hashed (some c) = some (hash c)

  hashed-or_later : (a b : Option Text) → hashed (or_later a b) ≡ or_later (hashed a) (hashed b)
  hashed-or_later none b = refl
  hashed-or_later (some c) b = refl

  lookup-run_read :
      (p c path : Text) (seen : Seen)
      → lookup path (run_read hash p c seen)
        ≡ (if p == path then or_later (lookup path seen) (some (hash c)) else lookup path seen)
  unfolding run_read
  lookup-run_read p c path seen = go (lookup p seen) refl
    where
      go :
          (o : Option Text)
          → lookup p seen ≡ o
          → lookup path (kept_first hash p c seen o)
            ≡ (if p == path then or_later (lookup path seen) (some (hash c)) else lookup path seen)
      go none e = elim (Bool-cases (p == path)) [
        | inr d ↦ rw d (lookup-insert_apart p path (hash c) seen d)
        | inl d ↦
            lookup-insert p path (hash c) seen
            ∙ rw d (
                ap (λ o. or_later o (some (hash c)))
                  (sym e ∙ ap (λ q. lookup q seen) (eq_of_beq {j = p} {k = path} d)))
      ]
      go (some was) e = elim (Bool-cases (p == path)) [
        | inr d ↦ rw d refl
        | inl d ↦
            let here = sym (ap (λ q. lookup q seen) (eq_of_beq {j = p} {k = path} d)) ∙ e in
            rw (d, here) refl
      ]

  module _ (path : Text) where
    -- The baseline of the path is the first of the reads kept.
    abbrev Agrees : Seen → List Event → Type 0
    Agrees seen kept = lookup path seen ≡ hashed (first_read path kept)

    read-Agrees :
        (p c : Text) (seen : Seen) (kept : List Event)
        → Agrees seen kept
        → Agrees (run_read hash p c seen) (kept ++ did_read p c ∷ [])
    unfolding first_read
    read-Agrees p c seen kept h =
        lookup-run_read p c path seen
        ∙ elim (Bool-cases (p == path)) [
          | inl d ↦ rw d (
              ap (λ o. or_later o (some (hash c))) h
              ∙ sym (hashed-or_later (first_read path kept) (some c)))
          | inr d ↦ rw d (h ∙ ap hashed (sym (or_later-none (first_read path kept))))
        ]
        ∙ ap hashed (sym (first_read-append path kept (did_read p c ∷ [])))

    write-Agrees :
        (p : Text) (seen : Seen) (kept : List Event)
        → (p == path) ≡ false
        → Agrees seen kept
        → Agrees (run_wrote hash p seen) (kept ++ did_write p ∷ [])
    unfolding first_read run_wrote
    write-Agrees p seen kept d h =
        lookup-erase p path seen
        ∙ rw d h
        ∙ ap hashed (
            sym (
              first_read-append path kept (did_write p ∷ [])
              ∙ or_later-none (first_read path kept)))

    replay-Agrees :
        (events : List Event) (seen : Seen) (kept : List Event)
        → Agrees seen kept
        → Agrees (replay events seen) (since_write path events kept)
    unfolding replay since_write run_wrote first_read
    replay-Agrees [] seen kept h = h
    replay-Agrees (did_read p c ∷ events) seen kept h =
        replay-Agrees events (run_read hash p c seen) (kept ++ did_read p c ∷ [])
          (read-Agrees p c seen kept h)
    replay-Agrees (did_write p ∷ events) seen kept h =
        go (p == path) refl (replay-Agrees events (run_wrote hash p seen))
      where
        go :
            (same : Bool)
            → (p == path) ≡ same
            → ((after : List Event)
                → Agrees (run_wrote hash p seen) after
                → Agrees (replay events (run_wrote hash p seen)) (since_write path events after))
            → Agrees (replay events (run_wrote hash p seen)) (elim same [
              | true ↦ since_write path events []
              | false ↦ since_write path events (kept ++ did_write p ∷ [])
            ])
        go true e next = next [] (ground (arith, lookup-erase p path seen))
        go false e next = next (kept ++ did_write p ∷ []) (write-Agrees p seen kept e h)

  -- The baseline after all of a run's events.
  pub lookup-replay :
      (path : Text) (events : List Event)
      → lookup path (replay events []) ≡ hashed (first_read path (since_write path events []))
  unfolding lookup first_read
  lookup-replay path events = replay-Agrees path events [] [] refl
