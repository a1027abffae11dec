-- ===== src/Diff/Hunks/Stretches.antt =====
-- Stretches of an edit script and their changed lines.
use be_code_redux.Base.{
  ℕ, List, [], ◌∷◌, ◌++◌, Text, take, drop, All, ◌≡◌, refl, sym, ap, ◌∙◌, subst, take-append-drop,
}
use be_code_redux.Diff.{Kind, kept, gone, added, Op}
use be_code_redux.Diff.Hunks.{Line, line_at, line_of, lines_of}

-- The lines of a hunk or of a script that are no context.
unfoldable pub changed_lines : List Line → List Line
changed_lines [] = []
changed_lines (l ∷ lines) =
    let rest = changed_lines lines in
    elim l.kind [ kept ↦ rest | gone ↦ l ∷ rest | added ↦ l ∷ rest ]

pub changed_lines-append :
    (xs ys : List Line) → changed_lines (xs ++ ys) ≡ changed_lines xs ++ changed_lines ys
unfolding changed_lines
changed_lines-append [] ys = refl
changed_lines-append (l ∷ xs) ys = go l.kind (changed_lines-append xs ys)
  where
    go :
        (k : Kind)
        → changed_lines (xs ++ ys) ≡ changed_lines xs ++ changed_lines ys
        → elim k [
          | kept ↦ changed_lines (xs ++ ys)
          | gone ↦ l ∷ changed_lines (xs ++ ys)
          | added ↦ l ∷ changed_lines (xs ++ ys)
        ]
          ≡ elim k [
            | kept ↦ changed_lines xs
            | gone ↦ l ∷ changed_lines xs
            | added ↦ l ∷ changed_lines xs
          ]
            ++ changed_lines ys
    go kept e = e
    go gone e = ap (λ r. l ∷ r) e
    go added e = ap (λ r. l ∷ r) e

abbrev pub IsKept : Op → Type 0
IsKept o = o.kind ≡ kept

module _ (a b : List Text) where
  -- The changed lines of a script.
  abbrev pub changes : List Op → List Line
  changes ops = changed_lines (lines_of a b ops)

  lines_of-append : (xs ys : List Op) → lines_of a b (xs ++ ys) ≡ lines_of a b xs ++ lines_of a b ys
  unfolding lines_of
  lines_of-append [] ys = refl
  lines_of-append (o ∷ xs) ys = ap (λ r. line_of a b o ∷ r) (lines_of-append xs ys)

  pub changes-append : (xs ys : List Op) → changes (xs ++ ys) ≡ changes xs ++ changes ys
  changes-append xs ys =
      ap changed_lines (lines_of-append xs ys)
      ∙ changed_lines-append (lines_of a b xs) (lines_of a b ys)

  pub changes-kept : (ops : List Op) → All IsKept ops → changes ops ≡ []
  unfolding lines_of changed_lines line_of
  changes-kept [] h = refl
  changes-kept (o ∷ ops) (k, h) =
      subst (λ kind. changed_lines (line_at a b kind o ∷ lines_of a b ops) ≡ []) (sym k)
        (changes-kept ops h)

  -- A stretch in two parts.
  pub changes-split :
      (n : ℕ) (ops : List Op) → changes ops ≡ changes (take n ops) ++ changes (drop n ops)
  changes-split n ops =
      ap changes (sym (take-append-drop n ops)) ∙ changes-append (take n ops) (drop n ops)
