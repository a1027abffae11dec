-- ===== src/Schedule/Allow/Standing.antt =====
-- ParseStanding reads each entry by itself; ParseAllowance is what it reads where no entry is bad.
use be_code_redux.Base.{
  ℕ, List, [], ◌∷◌, ◌++◌, Bool, Text, text_keyed, Option, Result, ok, err, ◌>>=◌, ◌≡◌, refl, ap,
  ◌∙◌, Bool-cases, inl, inr,
}
use be_code_redux.Schedule.Allow.{
  Grant, GrantError, parse_grant, is_blank, cons_grant, parse_allowance, stand, parse_standing,
}

abbrev pub Read : Type 0
Read = List Grant × List (Text × GrantError)

-- The grants, or the first error.
abbrev pub first_error : Read → Result GrantError (List Grant)
first_error (a, []) = ok a
first_error (a, (l, e) ∷ errs) = err e

abbrev pub joined : Read → Read → Read
joined (a, errs) (b, errs') = (a ++ b, errs ++ errs')

first_error-stand :
    (is_control : ℕ → Bool) (lower : Text → Text) (path_match : Text → Text → Option Bool)
    (l : Text) (g : Result GrantError Grant) (r : Read)
    → (g >>= (λ g. first_error r >>= cons_grant is_control lower path_match g))
      ≡ first_error (stand is_control lower path_match l g r)
first_error-stand c w m l (ok g) (a, []) = refl
first_error-stand c w m l (ok g) (a, (k, e) ∷ errs) = refl
first_error-stand c w m l (err e) (a, errs) = refl

stand-joined :
    (is_control : ℕ → Bool) (lower : Text → Text) (path_match : Text → Text → Option Bool)
    (l : Text) (g : Result GrantError Grant) (r s : Read)
    → stand is_control lower path_match l g (joined r s)
      ≡ joined (stand is_control lower path_match l g r) s
stand-joined c w m l (ok g) (a, errs) (b, errs') = refl
stand-joined c w m l (err e) (a, errs) (b, errs') = refl

-- ParseAllowance returns the grants that ParseStanding reads, or the first of its errors; and what
-- ParseStanding reads of two lists of lines, one behind the other, is what it reads of each.
pub parse_allowance-standing :
    (is_control : ℕ → Bool) (lower : Text → Text) (path_match : Text → Text → Option Bool)
    (lines more : List Text)
    → (parse_allowance is_control lower path_match lines
        ≡ first_error (parse_standing is_control lower path_match lines))
      × (parse_standing is_control lower path_match (lines ++ more)
          ≡ joined
              (parse_standing is_control lower path_match lines)
              (parse_standing is_control lower path_match more))
unfolding parse_allowance parse_standing
parse_allowance-standing c w m [] more = (refl, refl)
parse_allowance-standing c w m (l ∷ lines) more =
    let (same, apart) = parse_allowance-standing c w m lines more in
    elim (Bool-cases (is_blank c w m l)) [
      | inl e ↦ (rw e same, rw e apart)
      | inr e ↦ (
        rw e (
            ap (λ r. parse_grant c w m l >>= (λ g. r >>= cons_grant c w m g)) same
            ∙ first_error-stand c w m l (parse_grant c w m l) (parse_standing c w m lines)),
        rw e (
            ap (stand c w m l (parse_grant c w m l)) apart
            ∙ stand-joined c w m l (parse_grant c w m l) (parse_standing c w m lines)
                (parse_standing c w m more)),
      )
    ]
