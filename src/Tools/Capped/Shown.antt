-- ===== src/Tools/Capped/Shown.antt =====
-- What String shows of the buffer after any sequence of writes.
use be_code_redux.Base.{
  ℕ, suc, ◌+◌, ◌-◌, ◌≤◌, ◌<◌, List, [], ◌∷◌, ◌++◌, false, not, ◌&&◌, Text, nat_keyed, ◌==◌,
  eq_of_beq, if◌then◌else◌, leb, length, take, drop, ◌≡◌, ◌≢◌, refl, sym, ap, ◌∙◌, arith,
  length-append, Bool-cases, inl, inr, ◌⊎◌,
}
use mathlib.Core.Path.{ap₂}
use be_code_redux.Tools.Capped.{Shares, CappedBuffer, new_buffer, write_all, string, elided}
use be_code_redux.Tools.Capped.Ring.{oldest_first, take_front}
use be_code_redux.Tools.Capped.Loop.{tail-IsRing}
use be_code_redux.Tools.Capped.Kept.{concat, IsHolding, Written, write_all-Written, new-Written}

drop_past : (u v : List ℕ) (k : ℕ) → drop (length u + k) (u ++ v) ≡ drop k v
drop_past [] v k = ap (λ n. drop n v) (sum k)
  where
    sum : (k : ℕ) → 0 + k ≡ k
    sum k = omega arith
drop_past (x ∷ u) v k = ap (λ n. drop n (x ∷ u ++ v)) (sum (length u) k) ∙ drop_past u v k
  where
    sum : (n k : ℕ) → suc n + k ≡ suc (n + k)
    sum n k = omega arith

module _ (s : Shares) where
  -- What String shows for the bytes of all writes.
  unfoldable pub shown : (ℕ → Text) → List ℕ → Text
  shown decimal seen =
      if leb (length seen) (s.head_share + s.tail_cap)
      then seen
      else take s.head_share seen
        ++ elided s decimal (length seen - (s.head_share + s.tail_cap))
        ++ drop (length seen - s.tail_cap) seen

  string-calm :
      (decimal : ℕ → Text) (b : CappedBuffer) (front rest : List ℕ)
      → IsHolding s b front rest
      → b.wrapped ≡ false
      → b.dropped ≡ 0
      → string s decimal b ≡ front ++ rest
  unfolding string
  string-calm decimal b front rest h w d =
      rw w (rw d (ap₂ (λ u v. u ++ v) h.of_head (tail-IsRing s b rest h.ring d)))

  string-wrapped :
      (decimal : ℕ → Text) (b : CappedBuffer) (front rest : List ℕ)
      → IsHolding s b front rest
      → b.dropped ≢ 0
      → string s decimal b
        ≡ front
          ++ elided s decimal (length rest - s.tail_cap)
          ++ drop (length rest - s.tail_cap) rest
  unfolding string
  string-wrapped decimal b front rest h d =
      let test : (not b.wrapped && (b.dropped == 0)) ≡ false = ground (arith, d) in
      rw test (
        ap₂ (λ u n. u ++ elided s decimal n ++ oldest_first b.start b.tail) h.of_head h.ring.counted
        ∙ ap (λ l. front ++ elided s decimal (length rest - s.tail_cap) ++ l) h.ring.last_bytes)

  shown-append :
      (decimal : ℕ → Text) (front rest : List ℕ)
      → length front ≡ s.head_share
      → s.tail_cap < length rest
      → front ++ elided s decimal (length rest - s.tail_cap) ++ drop (length rest - s.tail_cap) rest
        ≡ shown decimal (front ++ rest)
  unfolding shown
  shown-append decimal front rest h k =
      let size : length (front ++ rest) ≡ length front + length rest = length-append front rest in
      let long : leb (length (front ++ rest)) (s.head_share + s.tail_cap) ≡ false =
        ground (arith, size) in
      let count : length (front ++ rest) - (s.head_share + s.tail_cap) ≡ length rest - s.tail_cap =
        omega arith in
      let skip : length (front ++ rest) - s.tail_cap ≡ length front + (length rest - s.tail_cap) =
        omega arith in
      rw long (
        rw count (
          rw skip (
            rw (drop_past front rest (length rest - s.tail_cap))
              (rw (← h) (rw (take_front front rest) refl)))))

  shown_all :
      (decimal : ℕ → Text) (seen : List ℕ)
      → length seen ≤ s.head_share + s.tail_cap
      → shown decimal seen ≡ seen
  unfolding shown
  shown_all decimal seen h = ground arith

  string-Written :
      (decimal : ℕ → Text) (b : CappedBuffer) (seen : List ℕ)
      → Written s b seen
      → string s decimal b ≡ shown decimal seen
  string-Written decimal b seen w =
      let size : length (w.front ++ w.rest) ≡ length w.front + length w.rest =
        length-append w.front w.rest in
      elim (Bool-cases (b.dropped == 0)) [
        | inl e ↦
            let none : b.dropped ≡ 0 = eq_of_beq e in
            string-calm decimal b w.front w.rest w.holds (w.calm none) none
            ∙ w.all_there
            ∙ sym (
                shown_all decimal seen
                  (omega (arith, w.holds.short, w.holds.ring.counted, ap length w.all_there)))
        | inr e ↦
            let some_gone : b.dropped ≢ 0 = ground arith in
            string-wrapped decimal b w.front w.rest w.holds some_gone
            ∙ shown-append decimal w.front w.rest
                (only_full w.rest w.holds.full (omega (arith, w.holds.ring.counted)))
                (omega (arith, w.holds.ring.counted))
            ∙ ap (shown decimal) w.all_there
      ]
    where
      only_full : (rest : List ℕ) {A : Type 0} → (rest ≡ []) ⊎ A → 0 < length rest → A
      only_full rest (inl e) h = absurd (omega (arith, ap length e))
      only_full rest (inr e) h = e

-- After any sequence of writes to an empty buffer, String shows every byte where at most
-- head_share + tail_cap were written; else the first head_share bytes, a line with the number of
-- bytes between, and the last tail_cap bytes. The buffer never holds more than these.
pub write_all-string :
    (s : Shares) (decimal : ℕ → Text) (ps : List (List ℕ))
    → 0 < s.tail_cap
    → (string s decimal (write_all s new_buffer ps) ≡ shown s decimal (concat ps))
      × (length (write_all s new_buffer ps).head + length (write_all s new_buffer ps).tail
          ≤ s.head_share + s.tail_cap)
write_all-string s decimal ps h =
    let w = write_all-Written s new_buffer [] ps (new-Written s h) in
    (
      string-Written s decimal (write_all s new_buffer ps) (concat ps) w,
      omega (arith, w.holds.short, ap length w.holds.of_head, w.holds.ring.size),
    )
