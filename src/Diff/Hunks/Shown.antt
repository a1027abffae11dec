-- ===== src/Diff/Hunks/Shown.antt =====
-- The hunks show every changed line of the script, once and in order.
use be_code_redux.Base.{
  ℕ, zero, suc, ◌+◌, ◌-◌, ◌*◌, ◌≤◌, ◌<◌, List, [], ◌∷◌, ◌++◌, Text, ltb, length, take, drop, Option,
  none, some, get_elem?, All, Bool-cases, inl, inr, ◌⊎◌, ◌≡◌, ◌≢◌, refl, sym, ap, ◌∙◌, subst, arith,
}
use be_code_redux.Diff.{Kind, kept, gone, added, Op}
use be_code_redux.Diff.Hunks.{
  Line, Hunk, lines_of, last_change, stop_for, min_of, hunk_of, at_kind, at_op, hunks_from,
  build_hunks,
}
use be_code_redux.Diff.Hunks.Stretches.{
  changed_lines, IsKept, changes, changes-append, changes-kept, changes-split,
}
use be_code_redux.Diff.Hunks.Reach.{IsEnd, last_change-IsEnd}
use be_code_redux.Diff.Hunks.Parts.{
  drop-drop, drop-get_elem?, drop-past, All-stretch, All-take, All-take_suc, drop-length,
  get_elem?-small, get_elem?-past, All-get_elem?, get_elem?-drop,
}

-- The changed lines of all hunks.
unfoldable pub hunk_changes : List Hunk → List Line
hunk_changes [] = []
hunk_changes (h ∷ hunks) = changed_lines h.lines ++ hunk_changes hunks

module _ (a b : List Text) (ops : List Op) (context : ℕ) where
  -- From `p` up to `i` there is no change, and none within the context behind `p`, unless `p` is
  -- the first place.
  record IsClear (p i : ℕ) : Type 0 where
    order : p ≤ i
    plain : All IsKept (take (i - p) (drop p ops))
    after : (p ≡ 0) ⊎ All IsKept (take context (drop p ops))

  module _ (i : ℕ) (o : Op) (here : get_elem? ops i ≡ some o) where
    rest : drop i ops ≡ o ∷ drop (i + 1) ops
    rest = drop-get_elem? ops i o here

    IsClear-past : (p : ℕ) → IsClear p i → o.kind ≡ kept → IsClear p (i + 1)
    IsClear-past p c k = record {
      order = omega (arith, c.order);
      plain = subst (λ n. All IsKept (take n (drop p ops))) next longer;
      after = c.after;
    }
      where
        next : suc (i - p) ≡ i + 1 - p
        next = omega (arith, c.order)

        tail : drop (i - p) (drop p ops) ≡ o ∷ drop (i + 1) ops
        tail = drop-drop p (i - p) ops ∙ ap (λ n. drop n ops) (omega (arith, c.order)) ∙ rest

        longer : All IsKept (take (suc (i - p)) (drop p ops))
        longer = All-take_suc IsKept (i - p) (drop p ops) _ o tail k c.plain

    -- What a hunk takes in front of a change is no change.
    context_plain :
        (p : ℕ)
        → IsClear p i
        → o.kind ≢ kept
        → All IsKept (take (i - (i - context)) (drop (i - context) ops))
    context_plain p c change =
        subst (λ xs. All IsKept (take (i - (i - context)) xs))
          (drop-drop p (i - context - p) ops
            ∙ ap (λ n. drop n ops) (omega (arith, far c.after, c.order)))
          (All-stretch IsKept (i - context - p) (i - p) (i - (i - context)) (drop p ops)
            (omega (arith, far c.after, c.order)) c.plain)
      where
        at_p : get_elem? (drop p ops) (i - p) ≡ some o
        at_p = get_elem?-drop p (i - p) ops ∙ ap (get_elem? ops) (omega (arith, c.order)) ∙ here

        far : (p ≡ 0) ⊎ All IsKept (take context (drop p ops)) → p ≤ i - context
        far (inl e) = omega (arith, e)
        far (inr a) = elim (Bool-cases (ltb (i - p) context)) [
          | inl near ↦
              absurd
                (change (All-get_elem? IsKept context (drop p ops) (i - p) o (ground arith) at_p a))
          | inr away ↦ ground (arith, c.order)
        ]

    module _ (change : o.kind ≢ kept) where
      abbrev end : ℕ
      end = last_change context (drop i ops) i 0 i

      abbrev stop : ℕ
      stop = stop_for a b ops context i

      stop_is : stop ≡ min_of a b (end + context + 1) (length ops)
      unfolding stop_for
      stop_is = refl

      reach : (i ≤ end) × IsEnd ops context end
      reach = last_change-IsEnd ops context i o (drop (i + 1) ops) rest change

      stop_far : i < stop
      stop_far = rw stop_is (ground (arith, reach.0, get_elem?-small ops i o here))

      -- The next hunk starts behind this one.
      IsClear-next : IsClear stop stop
      IsClear-next = record {
        order = omega arith;
        plain = subst (λ n. All IsKept (take n (drop stop ops))) none_left tt;
        after = inr (elim (Bool-cases (ltb (length ops) (end + context + 1))) [
          | inl e ↦
              let near : min_of a b (end + context + 1) (length ops) ≡ length ops = rw e refl in
              let at_length : length ops ≡ stop = sym (stop_is ∙ near) in
              subst (λ xs. All IsKept (take context xs))
                (sym (drop-length ops) ∙ ap (λ n. drop n ops) at_length)
                (All-take IsKept context [] tt)
          | inr e ↦
              let near : min_of a b (end + context + 1) (length ops) ≡ end + context + 1 =
                rw e refl in
              let at_end : end + 1 + context ≡ stop = omega (arith, near, stop_is) in
              subst (λ xs. All IsKept (take context xs))
                (drop-drop (end + 1) context ops ∙ ap (λ n. drop n ops) at_end)
                (All-stretch IsKept context (2 * context + 1) context (drop (end + 1) ops)
                  (omega arith) reach.1)
        ]);
      }
        where
          none_left : 0 ≡ stop - stop
          none_left = omega arith

      -- The changes from here on are those of the hunk and those behind it.
      changes-hunk :
          (p : ℕ)
          → IsClear p i
          → changes a b (drop i ops)
            ≡ changed_lines (hunk_of a b ops (i - context) stop).lines
              ++ changes a b (drop stop ops)
      unfolding hunk_of
      changes-hunk p c =
          sym before
          ∙ changes-split a b (stop - (i - context)) (drop (i - context) ops)
          ∙ ap
              (λ xs.
                changes a b (take (stop - (i - context)) (drop (i - context) ops))
                ++ changes a b xs)
              (drop-drop (i - context) (stop - (i - context)) ops
                ∙ ap (λ n. drop n ops) (omega (arith, stop_far)))
        where
          before : changes a b (drop (i - context) ops) ≡ changes a b (drop i ops)
          before =
              changes-split a b (i - (i - context)) (drop (i - context) ops)
              ∙ ap (λ xs. xs ++ changes a b (drop (i - (i - context)) (drop (i - context) ops)))
                  (changes-kept a b _ (context_plain p c change))
              ∙ ap (changes a b) (
                  drop-drop (i - context) (i - (i - context)) ops
                  ∙ ap (λ n. drop n ops) (omega arith))

  shows_none : (i : ℕ) → get_elem? ops i ≡ none → [] ≡ changes a b (drop i ops)
  unfolding lines_of changed_lines
  shows_none i e = ap (changes a b) (sym (drop-past ops i e))

  module _ (i : ℕ) (o : Op) (here : get_elem? ops i ≡ some o) where
    shows_kept : o.kind ≡ kept → changes a b (drop (i + 1) ops) ≡ changes a b (drop i ops)
    shows_kept k = sym (
        ap (changes a b) (drop-get_elem? ops i o here)
        ∙ changes-append a b (o ∷ []) (drop (i + 1) ops)
        ∙ ap (λ r. r ++ changes a b (drop (i + 1) ops)) (changes-kept a b (o ∷ []) (k, tt)))

  hunks_from-shows :
      (fuel i p : ℕ)
      → length ops ≤ fuel + i
      → IsClear p i
      → hunk_changes (hunks_from a b ops context fuel i) ≡ changes a b (drop i ops)
  unfolding hunks_from hunk_changes
  hunks_from-shows zero i p h c = shows_none i (get_elem?-past ops i (omega (arith, h)))
  hunks_from-shows (suc fuel) i p h c = go (get_elem? ops i) refl (hunks_from-shows fuel)
    where
      go :
          (found : Option Op)
          → get_elem? ops i ≡ found
          → ((j q : ℕ)
              → length ops ≤ fuel + j
              → IsClear q j
              → hunk_changes (hunks_from a b ops context fuel j) ≡ changes a b (drop j ops))
          → hunk_changes (at_op a b ops context i (hunks_from a b ops context fuel) found)
            ≡ changes a b (drop i ops)
      go none e next = shows_none i e
      go (some o) e next = on_kind o.kind refl
        where
          hunk_shows :
              o.kind ≢ kept
              → changed_lines (hunk_of a b ops (i - context) (stop_for a b ops context i)).lines
                  ++ hunk_changes (hunks_from a b ops context fuel (stop_for a b ops context i))
                ≡ changes a b (drop i ops)
          hunk_shows change =
              ap
                (λ r.
                  changed_lines (hunk_of a b ops (i - context) (stop_for a b ops context i)).lines
                  ++ r)
                (next (stop_for a b ops context i) (stop_for a b ops context i)
                  (omega (arith, h, stop_far i o e change)) (IsClear-next i o e change))
              ∙ sym (changes-hunk i o e change p c)

          on_kind :
              (k : Kind)
              → o.kind ≡ k
              → hunk_changes (at_kind a b ops context i (hunks_from a b ops context fuel) k)
                ≡ changes a b (drop i ops)
          on_kind kept k =
              next (i + 1) p (omega (arith, h)) (IsClear-past i o e p c k) ∙ shows_kept i o e k
          on_kind gone k = hunk_shows (λ same. cc (k, same))
          on_kind added k = hunk_shows (λ same. cc (k, same))

pub build_hunks-changes :
    (a b : List Text) (ops : List Op) (context : ℕ)
    → hunk_changes (build_hunks a b ops context) ≡ changed_lines (lines_of a b ops)
unfolding build_hunks
build_hunks-changes a b ops context =
    hunks_from-shows a b ops context (length ops) 0 0 (omega arith)
      (record { order = omega arith; plain = tt; after = inl refl })
