-- ===== src/Agent/History/Fitting.antt =====
-- trim brings a history below its limit, or drops all that it may.
use be_code_redux.Base.{
  ℕ, zero, suc, ◌+◌, ◌-◌, ◌/◌, ◌≤◌, ◌<◌, List, [], ◌∷◌, ◌++◌, Bool, true, false, Text, text_keyed,
  nat_keyed, if◌then◌else◌, ltb, leb, length, ◌≡◌, refl, sym, subst, Bool-cases, ◌⊎◌, inl, inr,
  arith,
}
use be_code_redux.Agent.History.{
  Message, History, drop_index, drop_at, over, tokens, target, limit, floor, collapse_slack,
  with_messages, collapsed, collapse_pass, keeping, near_target, second_pass, collapse_old,
  drop_old, repair_orphans, finished, trim,
}
use be_code_redux.Agent.History.Dropping.{goes_on, drop_old-go, drop_old-stop}

length-drop_at : (i : ℕ) (ms : List Message) → i < length ms → length (drop_at i ms) + 1 ≡ length ms
unfolding drop_at
length-drop_at i [] h = absurd (omega arith)
length-drop_at zero (m ∷ []) h = refl
length-drop_at zero (m ∷ n ∷ ms) h = omega arith
length-drop_at (suc i) (m ∷ ms) h = omega (arith, length-drop_at i ms (omega arith))

module _ (est : Text → ℕ) (part : ℕ → ℕ) (shrink_args clip : Text → Text) (h : History) where
  -- No more messages may go.
  abbrev pub IsBare : List Message → Type 0
  IsBare ms = (length ms ≤ 6) ⊎ (length ms ≤ drop_index ms + 4)

  abbrev pub Fits : List Message → Type 0
  Fits ms = tokens est part shrink_args clip (with_messages h ms) ≤ limit h

  -- What trim returns: messages that fit, or the repair of messages that fit or are bare.
  abbrev pub Trimmed : List Message → Type 0
  Trimmed out =
      Fits out
      ⊎ ((ms : List Message) × (out ≡ repair_orphans est part shrink_args clip ms)
          × (Fits ms ⊎ IsBare ms))

  stopped-Fits :
      (ms : List Message) → goes_on est part shrink_args clip h ms ≡ false → Fits ms ⊎ IsBare ms
  stopped-Fits ms e = elim (Bool-cases (over est part shrink_args clip (with_messages h ms))) [
    | inr k ↦ inl (ground arith)
    | inl k ↦ elim (Bool-cases (ltb 6 (length ms))) [
      | inr l ↦ inr (inl (ground arith))
      | inl l ↦ inr (inr (ground arith))
    ]
  ]

  drop_old-Fits :
      (fuel : ℕ) (ms : List Message)
      → length ms ≤ fuel
      → Fits (drop_old est part shrink_args clip h fuel ms)
        ⊎ IsBare (drop_old est part shrink_args clip h fuel ms)
  drop_old-Fits zero ms e = unfold drop_old in inr (inl (omega arith))
  drop_old-Fits (suc fuel) ms e = elim (Bool-cases (goes_on est part shrink_args clip h ms)) [
    | inr k ↦
        subst (λ x. Fits x ⊎ IsBare x) (sym (drop_old-stop est part shrink_args clip h fuel ms k))
          (stopped-Fits ms k)
    | inl k ↦
        let place : drop_index ms < length ms = ground arith in
        subst (λ x. Fits x ⊎ IsBare x) (sym (drop_old-go est part shrink_args clip h fuel ms k))
          (drop_old-Fits fuel (drop_at (drop_index ms) ms)
            (omega (arith, length-drop_at (drop_index ms) ms place)))
  ]

  collapse_pass-target :
      (count : ℕ) (before ms : List Message)
      → (collapse_pass est part shrink_args clip h count before ms).1 ≡ true
      → tokens est part shrink_args clip
          (with_messages h (collapse_pass est part shrink_args clip h count before ms).0)
        ≤ target est part shrink_args clip h
  unfolding collapse_pass
  collapse_pass-target zero before ms e = cc
  collapse_pass-target (suc count) before [] e = cc
  collapse_pass-target (suc count) before (m ∷ ms) e =
      let now = before ++ collapsed est part shrink_args clip m ∷ ms in
      elim (Bool-cases (
        leb (tokens est part shrink_args clip (with_messages h now))
          (target est part shrink_args clip h))) [
            | inl k ↦ rw (k, collapse_pass) (ground arith)
            | inr k ↦
                rw (k, collapse_pass)
                  (collapse_pass-target count (before ++ collapsed est part shrink_args clip m ∷ [])
                    ms (rw (k, collapse_pass) at e))
          ]

  module _ (room : (n : ℕ) → part n + n / 10 ≤ n) where
    within : (l f : ℕ) → (if leb l f then l else f + part (l - f)) + (l - f) / 10 ≤ l
    within l f = elim (Bool-cases (leb l f)) [
      | inl e ↦ rw e (ground arith)
      | inr e ↦ let some_room = room (l - f) in rw e (ground arith)
    ]

    target-le :
        target est part shrink_args clip h + collapse_slack est part shrink_args clip h ≤ limit h
    target-le = within (limit h) (floor est part shrink_args clip h)

    second_pass-Fits :
        (r : List Message × Bool)
        → (r.1 ≡ true
            → tokens est part shrink_args clip (with_messages h r.0)
              ≤ target est part shrink_args clip h)
        → (second_pass est part shrink_args clip h r).1 ≡ true
        → Fits (second_pass est part shrink_args clip h r).0
    unfolding second_pass
    second_pass-Fits (ms, true) f e = omega (arith, f refl, target-le)
    second_pass-Fits (ms, false) f e =
        near (keeping est part shrink_args clip h 1 ms) (collapse_pass-target (length ms - 1) [] ms)
          e
      where
        near :
            (r : List Message × Bool)
            → (r.1 ≡ true
                → tokens est part shrink_args clip (with_messages h r.0)
                  ≤ target est part shrink_args clip h)
            → (near_target est part shrink_args clip h r).1 ≡ true
            → Fits (near_target est part shrink_args clip h r).0
        near (ms, true) f e = omega (arith, f refl, target-le)
        near (ms, false) f e = ground (arith, target-le)

    finished-Trimmed :
        (r : List Message × Bool)
        → (r.1 ≡ true → Fits r.0)
        → Trimmed (finished est part shrink_args clip h r)
    unfolding finished
    finished-Trimmed (ms, true) f = inl (f refl)
    finished-Trimmed (ms, false) f = inr (
      drop_old est part shrink_args clip h (length ms) ms,
      refl,
      drop_old-Fits (length ms) ms (omega arith),
    )

-- Where compression aims for at most nine tenths of the room above the floor, trim returns
-- messages within the limit, or the repair of messages that are within it or of which no more may
-- go: six at most, or at most four behind the place of the next to go.
pub trim-Trimmed :
    (est : Text → ℕ) (part : ℕ → ℕ) (shrink_args clip : Text → Text) (h : History)
    (room : (n : ℕ) → part n + n / 10 ≤ n)
    → Trimmed est part shrink_args clip h (trim est part shrink_args clip h)
unfolding trim collapse_old
trim-Trimmed est part shrink_args clip h room =
    elim (Bool-cases (over est part shrink_args clip h)) [
      | inr e ↦ rw e (inl (ground arith))
      | inl e ↦ rw e (
          finished-Trimmed est part shrink_args clip h room
            (collapse_old est part shrink_args clip h)
            (second_pass-Fits est part shrink_args clip h room
              (keeping est part shrink_args clip h 8 h.messages)
              (collapse_pass-target est part shrink_args clip h (length h.messages - 8) []
                h.messages)))
    ]
