-- ===== src/Diff/Patch.antt =====
-- The edit script of diffOps as a patch.
use be_code_redux.Base.{
  ℕ, zero, suc, ◌+◌, List, [], ◌∷◌, ◌++◌, Text, text_keyed, ◌≡◌, refl, ap, map, length, drop,
  get_elem?, Option, some, arith, length-append,
}
use be_code_redux.Diff.{kept, gone, added, Op, diff_ops}
use be_code_redux.Diff.Script.{
  Walk, stop, keep, drop_line, add_line, Walk-append, Walk-to, keep_ops-Walk, middle_ops-Walk,
  Slice-middle, Slice-back,
}
use mathlib.Core.Path.{ap₂}
use be_code_redux.Diff.Ends.{Parts, parts}

three-lengths :
    (u l w a : List Text) → a ≡ u ++ (l ++ w) → length u + length l + length w ≡ length a
three-lengths u l w a e = omega (arith, ap length e, length-append u (l ++ w), length-append l w)

parts-Walk : (a b : List Text) → Parts a b → Walk a b (diff_ops a b) 0 0 (length a) (length b)
parts-Walk a b p =
    let u = p.front in
    let l = p.left in
    let r = p.right in
    let w = p.back in
    rw p.script (
      Walk-append a b
        (Walk-to a b
          (keep_ops-Walk a b u 0 0 (rw p.of_a (Slice-middle [] u (l ++ w)))
            (rw p.of_b (Slice-middle [] u (r ++ w))))
          (omega arith) (omega arith))
        (Walk-append a b
          (middle_ops-Walk a b l r (length u) (rw p.of_a (Slice-middle u l w))
            (rw p.of_b (Slice-middle u r w)))
          (Walk-to a b
            (keep_ops-Walk a b w (length u + length l) (length u + length r)
              (rw p.of_a (Slice-back u l w)) (rw p.of_b (Slice-back u r w)))
            (three-lengths u l w a p.of_a) (three-lengths u r w b p.of_b))))

-- The text after the patch: a kept line is read from the old text, an added one from the new text.
pub new_lines : List Text → List Text → List Op → List (Option Text)
new_lines a b [] = []
new_lines a b (o ∷ os) = elim o.kind [
  | kept ↦ get_elem? a o.ai ∷ new_lines a b os
  | gone ↦ new_lines a b os
  | added ↦ get_elem? b o.bi ∷ new_lines a b os
]

-- The text before it: the lines kept and those taken away.
pub old_lines : List Text → List Op → List (Option Text)
old_lines a [] = []
old_lines a (o ∷ os) = elim o.kind [
  | kept ↦ get_elem? a o.ai ∷ old_lines a os
  | gone ↦ get_elem? a o.ai ∷ old_lines a os
  | added ↦ old_lines a os
]

pub drop-get_elem? :
    (l : List Text) (i : ℕ) (x : Text) → get_elem? l i ≡ some x → drop i l ≡ x ∷ drop (suc i) l
drop-get_elem? [] i x h = cc
drop-get_elem? (y ∷ l) zero x h = cc
drop-get_elem? (y ∷ l) (suc i) x h = drop-get_elem? l i x h

drop_all : (l : List Text) → drop (length l) l ≡ []
drop_all [] = refl
drop_all (x ∷ l) = drop_all l

Walk-new_lines :
    (a b : List Text) {os : List Op} {i j n m : ℕ}
    → Walk a b os i j n m
    → m ≡ length b
    → new_lines a b os ≡ map some (drop j b)
unfolding new_lines
Walk-new_lines a b stop e = rw e (rw (drop_all b))
Walk-new_lines a b {j = j} (keep {os = os} x p q w) e =
    rw (drop-get_elem? b j x q) (ap₂ (λ o l. o ∷ l) p (Walk-new_lines a b w e))
Walk-new_lines a b (drop_line x p w) e = Walk-new_lines a b w e
Walk-new_lines a b {j = j} (add_line y q w) e =
    rw (drop-get_elem? b j y q) (ap₂ (λ o l. o ∷ l) q (Walk-new_lines a b w e))

Walk-old_lines :
    (a b : List Text) {os : List Op} {i j n m : ℕ}
    → Walk a b os i j n m
    → n ≡ length a
    → old_lines a os ≡ map some (drop i a)
unfolding old_lines
Walk-old_lines a b stop e = rw e (rw (drop_all a))
Walk-old_lines a b {i = i} (keep x p q w) e =
    rw (drop-get_elem? a i x p) (ap₂ (λ o l. o ∷ l) p (Walk-old_lines a b w e))
Walk-old_lines a b {i = i} (drop_line x p w) e =
    rw (drop-get_elem? a i x p) (ap₂ (λ o l. o ∷ l) p (Walk-old_lines a b w e))
Walk-old_lines a b (add_line y q w) e = Walk-old_lines a b w e

-- The operations of diffOps visit every line of both texts once and in order, and keep only lines
-- that are equal; so the lines kept and taken away are the old text, and the old text's kept lines
-- with the added ones are the new text. It holds for the whole-text fallback too.
pub diff_ops-patches :
    (a b : List Text)
    → Walk a b (diff_ops a b) 0 0 (length a) (length b)
      × (old_lines a (diff_ops a b) ≡ map some a)
      × (new_lines a b (diff_ops a b) ≡ map some b)
diff_ops-patches a b =
    let w = parts-Walk a b (parts a b) in (w, Walk-old_lines a b w refl, Walk-new_lines a b w refl)
