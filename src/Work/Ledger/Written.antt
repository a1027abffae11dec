-- ===== src/Work/Ledger/Written.antt =====
-- The list of written paths in a session's record.
use be_code_redux.Base.{
  ℕ, zero, suc, ◌-◌, ◌≤◌, List, [], ◌∷◌, ◌++◌, true, false, not, ◌&&◌, ◌||◌, Text, text_keyed,
  nat_keyed, Option, none, some, ◌==◌, Bool-cases, inl, inr, any, any-elim, In, In-append_right,
  All, Pairwise, Pairwise-snoc, length, drop, length-drop, length-append, ltb, eq_of_beq, ◌≡◌, refl,
  sym, ◌∙◌, subst, arith,
}
use be_code_redux.Work.Ledger.{
  Ledger, Sources, writing_cap, is_active, has_dir, this_turn, newest, with_path, listed, write,
  write_in, touch, touched_lately, on_wrote,
}

-- At most ten paths, each listed once.
pub record IsListed (written : List Text) : Type 0 where
  pub small : length written ≤ writing_cap
  pub distinct : Pairwise (λ p q. (p == q) ≡ false) written

Pairwise-drop :
    (n : ℕ) (written : List Text)
    → Pairwise (λ p q. (p == q) ≡ false) written
    → Pairwise (λ p q. (p == q) ≡ false) (drop n written)
Pairwise-drop zero written h = h
Pairwise-drop (suc n) [] h = tt
Pairwise-drop (suc n) (p ∷ written) (_, h) = Pairwise-drop n written h

not-any :
    (rel : Text) (written : List Text)
    → any (λ p. p == rel) written ≡ false
    → All (λ p. (p == rel) ≡ false) written
not-any rel [] h = tt
not-any rel (p ∷ written) h = (ground arith, not-any rel written (ground arith))

-- A path at the end stays when at most as many come before it.
In-drop :
    (rel : Text) (n : ℕ) (written : List Text)
    → n ≤ length written
    → In rel (drop n (written ++ rel ∷ []))
In-drop rel zero written h = In-append_right rel written (rel ∷ []) (inl refl)
In-drop rel (suc n) [] h = absurd (omega (arith, h))
In-drop rel (suc n) (p ∷ written) h = In-drop rel n written (omega (arith, h))

newest-IsListed :
    (rel : Text) (written : List Text)
    → length written ≤ writing_cap
    → Pairwise (λ p q. (p == q) ≡ false) (written ++ rel ∷ [])
    → IsListed (newest (written ++ rel ∷ [])) × In rel (newest (written ++ rel ∷ []))
newest-IsListed rel written small apart =
    elim (Bool-cases (ltb writing_cap (length (written ++ rel ∷ [])))) [
      | inr e ↦ rw e (
        record { small = ground arith; distinct = apart },
        In-append_right rel written (rel ∷ []) (inl refl),
      )
      | inl e ↦ rw e (
        record {
          small = omega (
            arith,
            length-drop (length (written ++ rel ∷ []) - writing_cap) (written ++ rel ∷ []),
            length-append written (rel ∷ []),
            small,
          );
          distinct = Pairwise-drop _ _ apart;
        },
        In-drop rel _ written (omega (arith, length-append written (rel ∷ []), small)),
      )
    ]

with_path-IsListed :
    (rel : Text) (written : List Text)
    → IsListed written
    → IsListed (with_path rel written) × In rel (with_path rel written)
unfolding with_path
with_path-IsListed rel written ok_before = elim (Bool-cases (any (λ p. p == rel) written)) [
  | inl e ↦
      let (p, m, same) = any-elim (λ p. p == rel) written e in
      rw e (ok_before, subst (λ q. In q written) (eq_of_beq {j = p} {k = rel} same) m)
  | inr e ↦ rw e (
      newest-IsListed rel written ok_before.small (
        Pairwise-snoc (λ p q. (p == q) ≡ false) written rel ok_before.distinct
          (not-any rel written e)))
]

this_turn-IsListed :
    (state : Option (Text × ℕ)) (last : ℕ) (written : List Text)
    → IsListed written
    → IsListed (this_turn state last written).1
this_turn-IsListed none last written ok_before = ok_before
this_turn-IsListed (some (task, turn)) last written ok_before = elim (Bool-cases (turn == last)) [
  | inl e ↦ rw e ok_before
  | inr e ↦ rw e (record { small = omega arith; distinct = tt })
]

-- Writing the record changes the list in neither place.
touch-written :
    (src : Sources) (l : Ledger)
    → ((touch src l).0.written ≡ l.written) × ((touch src l).0.work.writing ≡ l.work.writing)
unfolding write
touch-written src l = go l.record_dir
  where
    go :
        (dir : Option Text)
        → ((write_in false src l dir).0.written ≡ l.written)
          × ((write_in false src l dir).0.work.writing ≡ l.work.writing)
    go none = (refl, refl)
    go (some folder) =
        elim (Bool-cases (l.closed || (not false && touched_lately src.clock l.last_touch))) [
          | inl e ↦ rw e (refl, refl)
          | inr e ↦ rw e (refl, refl)
        ]

-- On an active ledger with a record folder whose list has at most ten paths and each once, OnWrote
-- leaves such a list, with the path written in it, and the record shows that list.
pub on_wrote-IsListed :
    (rel : Text) (src : Sources) (l : Ledger)
    → (is_active l && has_dir l.record_dir) ≡ true
    → IsListed l.written
    → IsListed (on_wrote rel src l).0.written
      × In rel (on_wrote rel src l).0.written
      × ((on_wrote rel src l).0.work.writing ≡ (on_wrote rel src l).0.written)
unfolding on_wrote
on_wrote-IsListed rel src l on ok_before =
    let (e, f) = touch-written src (listed rel src l) in
    let (good, has) =
      with_path-IsListed rel _ (this_turn-IsListed src.state l.last_turn l.written ok_before) in
    rw on (subst IsListed (sym e) good, subst (In rel) (sym e) has, f ∙ sym e)
