-- ===== src/Diff/Ends.antt =====
-- The common ends that diffOps takes off: both sides are a shared front, a middle and a shared end.
use mathlib.Core.List.{reverse, reverse-append, reverse-cons, reverse-reverse}
use be_code_redux.Base.{
  ℕ, ◌+◌, ◌-◌, ◌≤◌, List, [], ◌∷◌, ◌++◌, Text, ◌==◌, text_keyed, ◌≡◌, refl, sym, ap, ◌∙◌, length,
  take, drop, arith, Bool-cases, inl, inr, eq_of_beq, length-append, length-drop, length-take,
  take-append-drop,
}
use be_code_redux.Diff.{common, keep_ops, middle_ops, diff_ops}

common-le : (a b : List Text) → (common a b ≤ length a) × (common a b ≤ length b)
unfolding common
common-le [] b = omega arith
common-le (x ∷ a) [] = omega arith
common-le (x ∷ a) (y ∷ b) = ground (arith, common-le a b)

-- The lines counted at the front are equal.
take-common : (a b : List Text) → take (common a b) a ≡ take (common a b) b
unfolding common
take-common [] [] = refl
take-common [] (y ∷ b) = refl
take-common (x ∷ a) [] = refl
take-common (x ∷ a) (y ∷ b) = elim (Bool-cases (x == y)) [
  | inl e ↦
      rw e (ap (λ l. x ∷ l) (take-common a b) ∙ ap (λ z. z ∷ take (common a b) b) (eq_of_beq e))
  | inr e ↦ rw e refl
]

take_exact : (u v : List Text) → take (length u) (u ++ v) ≡ u
take_exact [] v = refl
take_exact (x ∷ u) v = ap (λ l. x ∷ l) (take_exact u v)

length-reverse : (l : List Text) → length (reverse l) ≡ length l
length-reverse [] = refl
length-reverse (x ∷ l) =
    omega
      (arith, ap length (reverse-cons x l), length-append (reverse l) (x ∷ []), length-reverse l)

-- The last `k` lines, read from the end.
drop-reverse :
    (d : List Text) (k : ℕ) → k ≤ length d → drop (length d - k) d ≡ reverse (take k (reverse d))
drop-reverse d k h =
    let n = length d - k in
    let p = take n d in
    let s = drop n d in
    let size : length (reverse s) ≡ k = omega (arith, length-reverse s, length-drop n d) in
    let whole : reverse d ≡ reverse s ++ reverse p =
      ap reverse (sym (take-append-drop n d)) ∙ reverse-append p s in
    sym (
      ap (λ l. reverse (take k l)) whole
      ∙ ap (λ j. reverse (take j (reverse s ++ reverse p))) (sym size)
      ∙ ap reverse (take_exact (reverse s) (reverse p))
      ∙ reverse-reverse s)

-- What diffOps computes with, for two sides given in three parts.
pub record Parts (a b : List Text) : Type 0 where
  pub front : List Text
  pub left : List Text
  pub right : List Text
  pub back : List Text
  pub of_a : a ≡ front ++ (left ++ back)
  pub of_b : b ≡ front ++ (right ++ back)
  pub script :
      diff_ops a b
      ≡ keep_ops 0 0 (length front)
        ++ (middle_ops left right (length front)
            ++ keep_ops (length front + length left) (length front + length right) (length back))

module _ (a b : List Text) where
  abbrev pre : ℕ
  pre = common a b

  abbrev suf : ℕ
  suf = common (reverse (drop pre a)) (reverse (drop pre b))

  suf-le : (pre + suf ≤ length a) × (pre + suf ≤ length b)
  suf-le =
      let (p, q) = common-le a b in
      let (r, s) = common-le (reverse (drop pre a)) (reverse (drop pre b)) in
      let la : length (reverse (drop pre a)) ≡ length a - pre =
        length-reverse (drop pre a) ∙ length-drop pre a in
      let lb : length (reverse (drop pre b)) ≡ length b - pre =
        length-reverse (drop pre b) ∙ length-drop pre b in
      (omega arith, omega arith)

  abbrev left_part : List Text
  left_part = take (length a - suf - pre) (drop pre a)

  abbrev right_part : List Text
  right_part = take (length b - suf - pre) (drop pre b)

  abbrev back_part : List Text
  back_part = drop (length a - suf - pre) (drop pre a)

  size_a : length a - suf - pre ≡ length (drop pre a) - suf
  size_a = omega (arith, length-drop pre a)

  size_b : length b - suf - pre ≡ length (drop pre b) - suf
  size_b = omega (arith, length-drop pre b)

  back_same : drop (length b - suf - pre) (drop pre b) ≡ back_part
  back_same =
      let (la, lb) = suf-le in
      ap (λ n. drop n (drop pre b)) size_b
      ∙ drop-reverse (drop pre b) suf (omega (arith, length-drop pre b))
      ∙ ap reverse (sym (take-common (reverse (drop pre a)) (reverse (drop pre b))))
      ∙ sym (drop-reverse (drop pre a) suf (omega (arith, length-drop pre a)))
      ∙ ap (λ n. drop n (drop pre a)) (sym size_a)

  diff_ops_lem :
      diff_ops a b
      ≡ keep_ops 0 0 pre
        ++ (middle_ops left_part right_part pre ++ keep_ops (length a - suf) (length b - suf) suf)
  unfolding diff_ops
  diff_ops_lem = refl

  front_size : length (take pre a) ≡ pre
  front_size = omega (arith, length-take pre a, (common-le a b).0)

  back_size : length back_part ≡ suf
  back_size =
      let (la, lb) = suf-le in
      omega (arith, length-drop (length a - suf - pre) (drop pre a), length-drop pre a)

  left_end : length a - suf ≡ length (take pre a) + length left_part
  left_end =
      let (la, lb) = suf-le in
      omega (arith, front_size, length-take (length a - suf - pre) (drop pre a), length-drop pre a)

  right_end : length b - suf ≡ length (take pre a) + length right_part
  right_end =
      let (la, lb) = suf-le in
      omega (arith, front_size, length-take (length b - suf - pre) (drop pre b), length-drop pre b)

  pub parts : Parts a b
  parts = record {
    front = take pre a;
    left = left_part;
    right = right_part;
    back = back_part;
    of_a =
        sym (take-append-drop pre a)
        ∙ ap (λ l. take pre a ++ l) (sym (take-append-drop (length a - suf - pre) (drop pre a)));
    of_b =
        sym (take-append-drop pre b)
        ∙ ap (λ l. l ++ drop pre b) (sym (take-common a b))
        ∙ ap (λ l. take pre a ++ l) (sym (take-append-drop (length b - suf - pre) (drop pre b)))
        ∙ ap (λ l. take pre a ++ (right_part ++ l)) back_same;
    script = diff_ops_lem ∙ cc (front_size, back_size, left_end, right_end);
  }
