-- ===== src/Paths/Under.antt =====
-- Equal to a text, or below it: behind it and a separator.
use be_code_redux.Base.{
  ℕ, [], ◌∷◌, ◌++◌, Bool, true, ◌||◌, Text, ◌==◌, nat_keyed, text_keyed, ◌≡◌, ◌⊎◌, inl, inr,
  has_prefix, has_prefix_total, has_prefix_self, arith,
}

-- `r` is `s` or below it.
abbrev pub under : ℕ → Text → Text → Bool
under sep s r = has_prefix (r ++ sep ∷ []) (s ++ sep ∷ [])

module _ (sep : ℕ) where
  pub under_lem : (r s : Text) → (r == s || has_prefix r (s ++ sep ∷ [])) ≡ under sep s r
  under_lem [] [] = ground arith
  under_lem [] (y ∷ []) = ground arith
  under_lem [] (y ∷ z ∷ s) = ground arith
  under_lem (x ∷ r) [] = ground arith
  under_lem (x ∷ r) (y ∷ s) = ground (arith, under_lem r s)

  pub under_self : (s : Text) → under sep s s ≡ true
  under_self s = has_prefix_self (s ++ sep ∷ [])

  -- Of two texts above one, one is above the other.
  pub under_total :
      (s t r : Text)
      → under sep s r ≡ true
      → under sep t r ≡ true
      → (under sep s t ≡ true) ⊎ (under sep t s ≡ true)
  under_total s t r h k =
      elim (has_prefix_total (r ++ sep ∷ []) (s ++ sep ∷ []) (t ++ sep ∷ []) h k) [
        | inl e ↦ inr e
        | inr e ↦ inl e
      ]
