-- ===== src/Diff/Script.antt =====
-- Edit scripts as walks over two lists of lines, and the scripts of lcsOps and of the loops of
-- diffOps as walks.
use be_code_redux.Base.{
  ℕ, suc, ◌+◌, ◌*◌, List, [], ◌∷◌, ◌++◌, Text, ◌==◌, text_keyed, ◌≡◌, refl, sym, ap, ◌∙◌, subst,
  ltb, leb, length, get_elem?, some, arith, Bool-cases, inl, inr, eq_of_beq, length-append,
  append-nil, append_assoc,
}
use be_code_redux.Diff.{
  Op, keep_op, gone_op, added_op, gone_ops, added_ops, keep_ops, read_ops, lcs_ops, middle_ops,
  cell, max_lcs_cells,
}

-- The lines `xs` stand in `a` from position `p` on.
abbrev pub Slice : List Text → ℕ → List Text → Type 0
Slice a p [] = Unit
Slice a p (x ∷ xs) = (get_elem? a p ≡ some x) × Slice a (suc p) xs

-- The operations lead from line `i` of `a` and line `j` of `b` to the lines `n` and `m`, each one
-- about the line that comes next, and only equal lines are kept.
pub data Walk (a b : List Text) : List Op → ℕ → ℕ → ℕ → ℕ → Type 0 where
  stop : {i j : ℕ} → Walk a b [] i j i j
  keep :
      {os : List Op} {i j n m : ℕ} (x : Text)
      → get_elem? a i ≡ some x
      → get_elem? b j ≡ some x
      → Walk a b os (suc i) (suc j) n m
      → Walk a b (keep_op i j ∷ os) i j n m
  drop_line :
      {os : List Op} {i j n m : ℕ} (x : Text)
      → get_elem? a i ≡ some x
      → Walk a b os (suc i) j n m
      → Walk a b (gone_op i ∷ os) i j n m
  add_line :
      {os : List Op} {i j n m : ℕ} (y : Text)
      → get_elem? b j ≡ some y
      → Walk a b os i (suc j) n m
      → Walk a b (added_op j ∷ os) i j n m

module _ (a b : List Text) where
  pub Walk-append :
      {os ps : List Op} {k l i j n m : ℕ}
      → Walk a b os i j k l
      → Walk a b ps k l n m
      → Walk a b (os ++ ps) i j n m
  Walk-append stop w = w
  Walk-append (keep x e f h) w = keep x e f (Walk-append h w)
  Walk-append (drop_line x e h) w = drop_line x e (Walk-append h w)
  Walk-append (add_line x e h) w = add_line x e (Walk-append h w)

  pub Walk-to :
      {os : List Op} {i j n m n' m' : ℕ}
      → Walk a b os i j n m
      → n ≡ n'
      → m ≡ m'
      → Walk a b os i j n' m'
  Walk-to w e f = rw (← e, ← f) w

  gone_ops-Walk :
      (xs : List Text) (i j : ℕ)
      → Slice a i xs
      → Walk a b (gone_ops i (length xs)) i j (i + length xs) j
  unfolding gone_ops
  gone_ops-Walk [] i j h = Walk-to stop (omega arith) refl
  gone_ops-Walk (x ∷ xs) i j (hx, h) =
      drop_line x hx (Walk-to (gone_ops-Walk xs (suc i) j h) (omega arith) refl)

  added_ops-Walk :
      (ys : List Text) (i j : ℕ)
      → Slice b j ys
      → Walk a b (added_ops j (length ys)) i j i (j + length ys)
  unfolding added_ops
  added_ops-Walk [] i j h = Walk-to stop refl (omega arith)
  added_ops-Walk (y ∷ ys) i j (hy, h) =
      add_line y hy (Walk-to (added_ops-Walk ys i (suc j) h) refl (omega arith))

  pub keep_ops-Walk :
      (xs : List Text) (i j : ℕ)
      → Slice a i xs
      → Slice b j xs
      → Walk a b (keep_ops i j (length xs)) i j (i + length xs) (j + length xs)
  unfolding keep_ops
  keep_ops-Walk [] i j h k = Walk-to stop (omega arith) (omega arith)
  keep_ops-Walk (x ∷ xs) i j (hx, h) (kx, k) =
      keep x hx kx (Walk-to (keep_ops-Walk xs (suc i) (suc j) h k) (omega arith) (omega arith))

  -- Whatever the table holds, the loops that read it write a walk.
  pub read_ops-Walk :
      (dp : List (List ℕ)) (offset i j : ℕ) (xs ys : List Text) (p q : ℕ)
      → offset + i ≡ p
      → offset + j ≡ q
      → Slice a p xs
      → Slice b q ys
      → Walk a b (read_ops dp offset i j xs ys) p q (p + length xs) (q + length ys)
  unfolding read_ops
  read_ops-Walk dp offset i j [] ys p q ep eq h k =
      rw eq (Walk-to (added_ops-Walk ys p q k) (omega arith) refl)
  read_ops-Walk dp offset i j (x ∷ xs) [] p q ep eq h k =
      rw ep (Walk-to (gone_ops-Walk (x ∷ xs) p q h) refl (omega arith))
  read_ops-Walk dp offset i j (x ∷ xs) (y ∷ ys) p q ep eq (hx, h) (ky, k) =
      rw (ep, eq)
        (elim (Bool-cases (x == y)) [
          | inl e ↦ rw e (
              keep x hx (ky ∙ ap some (sym (eq_of_beq e))) (
                Walk-to
                  (read_ops-Walk dp offset (suc i) (suc j) xs ys (suc p) (suc q) (omega arith)
                    (omega arith) h k)
                  (omega arith) (omega arith)))
          | inr e ↦ rw e (elim (Bool-cases (leb (cell dp i (suc j)) (cell dp (suc i) j))) [
            | inl l ↦ rw l (
                drop_line x hx (
                  Walk-to
                    (read_ops-Walk dp offset (suc i) j xs (y ∷ ys) (suc p) q (omega arith) eq h
                      (ky, k))
                    (omega arith) refl))
            | inr l ↦ rw l (
                add_line y ky (
                  Walk-to
                    (read_ops-Walk dp offset i (suc j) (x ∷ xs) ys p (suc q) ep (omega arith)
                      (hx, h) k)
                    refl (omega arith)))
          ])
        ])

  pub middle_ops-Walk :
      (xs ys : List Text) (p : ℕ)
      → Slice a p xs
      → Slice b p ys
      → Walk a b (middle_ops xs ys p) p p (p + length xs) (p + length ys)
  unfolding middle_ops
  middle_ops-Walk xs ys p h k = elim (Bool-cases (ltb max_lcs_cells (length xs * length ys))) [
    | inl e ↦ rw e (Walk-append (gone_ops-Walk xs p p h) (added_ops-Walk ys (p + length xs) p k))
    | inr e ↦
        rw e (unfold lcs_ops in read_ops-Walk _ p 0 0 xs ys p p (omega arith) (omega arith) h k)
  ]

Slice-suc :
    (x : Text) (a : List Text) (p : ℕ) (v : List Text) → Slice a p v → Slice (x ∷ a) (suc p) v
Slice-suc x a p [] h = tt
Slice-suc x a p (y ∷ v) (hy, h) = (hy, Slice-suc x a (suc p) v h)

Slice-front : (v w : List Text) → Slice (v ++ w) 0 v
Slice-front [] w = tt
Slice-front (y ∷ v) w = (refl, Slice-suc y (v ++ w) 0 v (Slice-front v w))

-- A part of a list stands behind the part in front of it.
pub Slice-middle : (u v w : List Text) → Slice (u ++ (v ++ w)) (length u) v
Slice-middle [] v w = Slice-front v w
Slice-middle (x ∷ u) v w = Slice-suc x (u ++ (v ++ w)) (length u) v (Slice-middle u v w)

pub Slice-back : (u v w : List Text) → Slice (u ++ (v ++ w)) (length u + length v) w
Slice-back u v w =
    let whole : (u ++ v) ++ (w ++ []) ≡ u ++ (v ++ w) =
      ap (λ l. (u ++ v) ++ l) (append-nil w) ∙ append_assoc u v w in
    subst (λ l. Slice l (length u + length v) w) whole
      (subst (λ n. Slice ((u ++ v) ++ (w ++ [])) n w) (length-append u v)
        (Slice-middle (u ++ v) w []))
