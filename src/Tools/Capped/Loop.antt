-- ===== src/Tools/Capped/Loop.antt =====
-- The loop of Write over the bytes that the head leaves, with what its ring then holds.
use be_code_redux.Base.{
  ℕ, zero, suc, ◌+◌, ◌-◌, ◌%◌, ◌≤◌, ◌<◌, min, List, [], ◌∷◌, ◌++◌, true, false, nat_keyed, ltb,
  ltb→lt, length, take, drop, set, ◌≡◌, ◌≢◌, refl, sym, ap, ◌∙◌, subst, arith, length-append,
  length-take, length-drop, take-append-drop, length-set, append-nil, append_assoc, Bool-cases, inl,
  inr,
}
use native.Mathlib.Nat.{mod-lt}
use be_code_redux.Tools.Capped.{Shares, CappedBuffer, put_byte, overwrite, fill_tail}
use be_code_redux.Tools.Capped.Ring.{oldest_first, oldest_first-set, drop-drop, drop-append}

-- The tail of a buffer that has seen the bytes `rest` after its head: the last of them, oldest
-- first, and how many it dropped.
pub record IsRing (s : Shares) (b : CappedBuffer) (rest : List ℕ) : Type 0 where
  pub last_bytes : oldest_first b.start b.tail ≡ drop (length rest - s.tail_cap) rest
  pub counted : b.dropped ≡ length rest - s.tail_cap
  pub size : length b.tail ≡ min (length rest) s.tail_cap
  pub inside : b.start < s.tail_cap
  pub unmoved : b.dropped ≡ 0 → b.start ≡ 0

module _ (s : Shares) where
  pub tail-IsRing :
      (b : CappedBuffer) (rest : List ℕ) → IsRing s b rest → b.dropped ≡ 0 → b.tail ≡ rest
  tail-IsRing b rest r e =
      let home : b.start ≡ 0 = r.unmoved e in
      let none : length rest - s.tail_cap ≡ 0 = omega (arith, r.counted) in
      let turned : oldest_first 0 b.tail ≡ drop 0 rest =
        subst (λ i. oldest_first i b.tail ≡ drop 0 rest) home
          (subst (λ n. oldest_first b.start b.tail ≡ drop n rest) none r.last_bytes) in
      sym (append-nil b.tail) ∙ turned

  -- room in the tail
  grow-IsRing :
      (b : CappedBuffer) (rest q : List ℕ)
      → IsRing s b rest
      → length rest + length q ≤ s.tail_cap
      → IsRing s (record b { tail = b.tail ++ q }) (rest ++ q)
  grow-IsRing b rest q r h =
      let none_gone : b.dropped ≡ 0 = omega (arith, r.counted) in
      let home : b.start ≡ 0 = r.unmoved none_gone in
      let total : length (rest ++ q) ≡ length rest + length q = length-append rest q in
      let whole : b.tail ≡ rest = tail-IsRing b rest r none_gone in
      let gap : length (rest ++ q) - s.tail_cap ≡ 0 = omega arith in
      record {
        last_bytes = rw home (rw gap (append-nil (b.tail ++ q) ∙ ap (λ t. t ++ q) whole));
        counted = omega arith;
        size = omega (arith, length-append b.tail q, ap length whole);
        inside = r.inside;
        unmoved = r.unmoved;
      }

  -- no room: one byte over the oldest
  put_byte-IsRing :
      (b : CappedBuffer) (rest : List ℕ) (c : ℕ)
      → IsRing s b rest
      → s.tail_cap ≤ length rest
      → IsRing s (put_byte s b c) (rest ++ c ∷ [])
  put_byte-IsRing b rest c r h =
      let full : length b.tail ≡ s.tail_cap = omega (arith, r.size) in
      let total : length (rest ++ c ∷ []) ≡ length rest + 1 = length-append rest (c ∷ []) in
      let gap : length (rest ++ c ∷ []) - s.tail_cap ≡ suc (length rest - s.tail_cap) =
        omega arith in
      record {
        last_bytes =
            subst
              (λ n.
                oldest_first ((b.start + 1) % n) (set b.tail b.start c)
                ≡ drop 1 (oldest_first b.start b.tail) ++ c ∷ [])
              full (oldest_first-set b.tail b.start c (omega (arith, r.inside)))
            ∙ ap (λ l. drop 1 l ++ c ∷ []) r.last_bytes
            ∙ ap (λ l. l ++ c ∷ []) (drop-drop (length rest - s.tail_cap) rest)
            ∙ sym (
                drop-append (suc (length rest - s.tail_cap)) rest (c ∷ [])
                  (omega (arith, r.inside)))
            ∙ ap (λ n. drop n (rest ++ c ∷ [])) (sym gap);
        counted = omega (arith, r.counted);
        size = omega (arith, length-set b.tail b.start c);
        inside = mod-lt (b.start + 1) (omega (arith, r.inside));
        unmoved = λ e. absurd (omega arith);
      }

  head-overwrite : (b : CappedBuffer) (p : List ℕ) → (overwrite s b p).head ≡ b.head
  unfolding overwrite
  head-overwrite b [] = refl
  head-overwrite b (c ∷ p) = head-overwrite (put_byte s b c) p

  pub head-fill_tail :
      (fuel : ℕ) (b : CappedBuffer) (p : List ℕ) → (fill_tail s fuel b p).head ≡ b.head
  unfolding fill_tail
  head-fill_tail zero b p = refl
  head-fill_tail (suc fuel) b [] = refl
  head-fill_tail (suc fuel) b (c ∷ p) = elim (Bool-cases (ltb (length b.tail) s.tail_cap)) [
    | inl e ↦ rw e (head-fill_tail fuel (record b { tail = _ }) _)
    | inr e ↦ rw e (head-overwrite (record b { wrapped = true }) (c ∷ p))
  ]

  dropped-overwrite : (b : CappedBuffer) (p : List ℕ) → b.dropped ≤ (overwrite s b p).dropped
  unfolding overwrite
  dropped-overwrite b [] = omega arith
  dropped-overwrite b (c ∷ p) = omega (arith, dropped-overwrite (put_byte s b c) p)

  moved : (b : CappedBuffer) (c : ℕ) (p : List ℕ) → (overwrite s b (c ∷ p)).dropped ≢ 0
  unfolding overwrite
  moved b c p e = omega (arith, dropped-overwrite (put_byte s b c) p)

  -- Only a buffer that drops bytes is marked as wrapped.
  pub wrapped-fill_tail :
      (fuel : ℕ) (b : CappedBuffer) (p : List ℕ)
      → (b.dropped ≡ 0 → b.wrapped ≡ false)
      → (fill_tail s fuel b p).dropped ≡ 0
      → (fill_tail s fuel b p).wrapped ≡ false
  unfolding fill_tail
  wrapped-fill_tail zero b p h = h
  wrapped-fill_tail (suc fuel) b [] h = h
  wrapped-fill_tail (suc fuel) b (c ∷ p) h = elim (Bool-cases (ltb (length b.tail) s.tail_cap)) [
    | inl t ↦ rw t (λ e. wrapped-fill_tail fuel (record b { tail = _ }) _ h e)
    | inr t ↦ rw t (λ e. absurd (moved (record b { wrapped = true }) c p e))
  ]

  overwrite-IsRing :
      (b : CappedBuffer) (rest p : List ℕ)
      → IsRing s b rest
      → s.tail_cap ≤ length rest
      → IsRing s (overwrite s b p) (rest ++ p)
  unfolding overwrite
  overwrite-IsRing b rest [] r h = rw (append-nil rest) r
  overwrite-IsRing b rest (c ∷ p) r h =
      subst (IsRing s (overwrite s (put_byte s b c) p)) (append_assoc rest (c ∷ []) p) (
        overwrite-IsRing (put_byte s b c) (rest ++ c ∷ []) p (put_byte-IsRing b rest c r h)
          (omega (arith, length-append rest (c ∷ []))))

  -- The loop takes every byte it is given.
  pub fill_tail-IsRing :
      (fuel : ℕ) (b : CappedBuffer) (rest p : List ℕ)
      → IsRing s b rest
      → length p ≤ fuel
      → IsRing s (fill_tail s fuel b p) (rest ++ p)
  unfolding fill_tail
  fill_tail-IsRing zero b rest [] r h = rw (append-nil rest) r
  fill_tail-IsRing zero b rest (c ∷ p) r h = absurd (omega arith)
  fill_tail-IsRing (suc fuel) b rest [] r h = rw (append-nil rest) r
  fill_tail-IsRing (suc fuel) b rest (c ∷ p) r h =
      let n = min (s.tail_cap - length b.tail) (suc (length p)) in
      let q = take n (c ∷ p) in
      let left = drop n (c ∷ p) in
      elim (Bool-cases (ltb (length b.tail) s.tail_cap)) [
        | inl e ↦
            let room : length b.tail < s.tail_cap = ltb→lt (length b.tail) s.tail_cap e in
            let some_room : length left ≤ fuel = omega (arith, length-drop n (c ∷ p)) in
            let fits : length rest + length q ≤ s.tail_cap =
              omega (arith, length-take n (c ∷ p), r.size) in
            rw e (
              subst (IsRing s _)
                (append_assoc rest q left ∙ ap (λ l. rest ++ l) (take-append-drop n (c ∷ p)))
                (fill_tail-IsRing fuel (record b { tail = b.tail ++ q }) (rest ++ q) left
                  (grow-IsRing b rest q r fits) some_room))
        | inr e ↦ rw e (
            overwrite-IsRing (record b { wrapped = true }) rest (c ∷ p)
              (record {
                last_bytes = r.last_bytes;
                counted = r.counted;
                size = r.size;
                inside = r.inside;
                unmoved = r.unmoved;
              })
              (ground (arith, r.size)))
      ]
