-- ===== src/Agent/History/Dropping.antt =====
-- What the dropping loop of trim keeps.
use be_code_redux.Base.{
  ℕ, zero, suc, ◌+◌, ◌≤◌, ◌<◌, List, [], ◌∷◌, ◌++◌, Bool, true, false, ◌&&◌, Text, text_keyed,
  nat_keyed, ltb, some, length, length-append, ◌≡◌, refl, ap, ◌∙◌, Bool-cases, inl, inr, arith,
}
use be_code_redux.Agent.History.{
  Message, History, is_user, marked, first_user, behind, drop_index, drop_at, over, with_messages,
  drop_old,
}

abbrev pub NoUser : List Message → Type 0
NoUser [] = Unit
NoUser (m ∷ ms) = (is_user m.role ≡ false) × NoUser ms

first_user-at :
    (before : List Message) (u : Message) (rest : List Message)
    → NoUser before
    → is_user u.role ≡ true
    → first_user (before ++ u ∷ rest) ≡ some (length before)
unfolding first_user
first_user-at [] u rest n h = rw h refl
first_user-at (b ∷ before) u rest (hb, n) h =
    let ih = first_user-at before u rest n h in rw hb (rw ih refl)

drop_at-behind :
    (before : List Message) (u x y : Message) (rest : List Message)
    → drop_at (suc (length before)) (before ++ u ∷ x ∷ y ∷ rest) ≡ before ++ u ∷ marked y ∷ rest
unfolding drop_at
drop_at-behind [] u x y rest = refl
drop_at-behind (b ∷ before) u x y rest = ap (λ l. b ∷ l) (drop_at-behind before u x y rest)

module _ (est : Text → ℕ) (part : ℕ → ℕ) (shrink_args clip : Text → Text) (h : History) where
  abbrev pub goes_on : List Message → Bool
  goes_on ms =
      over est part shrink_args clip (with_messages h ms)
      && ltb 6 (length ms)
      && ltb (drop_index ms + 4) (length ms)

  pub drop_old-go :
      (fuel : ℕ) (ms : List Message)
      → goes_on ms ≡ true
      → drop_old est part shrink_args clip h (suc fuel) ms
        ≡ drop_old est part shrink_args clip h fuel (drop_at (drop_index ms) ms)
  unfolding drop_old
  drop_old-go fuel ms e = rw (e, drop_old) refl

  pub drop_old-stop :
      (fuel : ℕ) (ms : List Message)
      → goes_on ms ≡ false
      → drop_old est part shrink_args clip h (suc fuel) ms ≡ ms
  unfolding drop_old
  drop_old-stop fuel ms e = rw (e, drop_old) refl

  -- A history up to its task, and its last messages, around what may go.
  abbrev around : List Message → Message → List Message → List Message → List Message
  around before task middle last = before ++ task ∷ (middle ++ last)

  drop_index-around :
      (before : List Message) (task : Message) (middle last : List Message)
      → NoUser before
      → is_user task.role ≡ true
      → drop_index (around before task middle last) ≡ suc (length before)
  unfolding drop_index
  drop_index-around before task middle last n u =
      ap behind (first_user-at before task (middle ++ last) n u)

  -- The loop only goes on where two messages stand in the middle.
  middle-two :
      (before : List Message) (task : Message) (middle last : List Message)
      → NoUser before
      → is_user task.role ≡ true
      → length last ≡ 3
      → goes_on (around before task middle last) ≡ true
      → 2 ≤ length middle
  middle-two before task middle last n u three g =
      let i = drop_index-around before task middle last n u in
      let long : drop_index (around before task middle last) + 4
          < length (around before task middle last) =
        ground arith in
      omega (
        arith,
        i,
        long,
        three,
        length-append before (task ∷ (middle ++ last)),
        length-append middle last,
      )

  pub drop_old-around :
      (fuel : ℕ) (before : List Message) (task : Message) (middle last : List Message)
      → NoUser before
      → is_user task.role ≡ true
      → length last ≡ 3
      → (left : List Message) × (drop_old est part shrink_args clip h fuel
            (before ++ task ∷ (middle ++ last))
          ≡ before ++ task ∷ (left ++ last))
  drop_old-around zero before task middle last n u three = (middle, unfold drop_old in refl)
  drop_old-around (suc fuel) before task middle last n u three =
      elim (Bool-cases (goes_on (around before task middle last))) [
        | inr e ↦ (middle, drop_old-stop fuel (around before task middle last) e)
        | inl e ↦
            go middle (λ more. drop_old-around fuel before task more last n u three) e
              (middle-two before task middle last n u three e)
              (drop_index-around before task middle last n u)
      ]
    where
      go :
          (middle : List Message)
          → ((more : List Message)
              → (left : List Message) × (drop_old est part shrink_args clip h fuel
                    (around before task more last)
                  ≡ around before task left last))
          → goes_on (around before task middle last) ≡ true
          → 2 ≤ length middle
          → drop_index (around before task middle last) ≡ suc (length before)
          → (left : List Message) × (drop_old est part shrink_args clip h
                (suc fuel)
                (around before task middle last)
              ≡ around before task left last)
      go [] again e two i = absurd (omega arith)
      go (x ∷ []) again e two i = absurd (omega arith)
      go (x ∷ y ∷ middle) again e two i =
          let (left, k) = again (marked y ∷ middle) in
          (
            left,
            drop_old-go fuel (around before task (x ∷ y ∷ middle) last) e
                ∙ ap
                    (λ j.
                      drop_old est part shrink_args clip h fuel
                        (drop_at j (around before task (x ∷ y ∷ middle) last)))
                    i
                ∙ ap (drop_old est part shrink_args clip h fuel)
                    (drop_at-behind before task x y (middle ++ last))
                ∙ k,
          )

-- The dropping loop keeps all messages up to the first user message, which carries the task, and
-- the last three.
pub drop_old-keeps :
    (est : Text → ℕ) (part : ℕ → ℕ) (shrink_args clip : Text → Text) (h : History) (fuel : ℕ)
    (before : List Message) (task : Message) (middle last : List Message)
    → NoUser before
    → is_user task.role ≡ true
    → length last ≡ 3
    → (left : List Message) × (drop_old est part shrink_args clip h fuel
          (before ++ task ∷ (middle ++ last))
        ≡ before ++ task ∷ (left ++ last))
drop_old-keeps est part shrink_args clip h fuel before task middle last n u three =
    drop_old-around est part shrink_args clip h fuel before task middle last n u three
