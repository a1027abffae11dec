-- ===== src/Subagent/Scope/Sharing.antt =====
-- The tests of internal/subagent/scope.go on two scopes, for a scheduler that relies on them.
use be_code_redux.Base.{
  List, [], ◌∷◌, true, false, Text, ◌==◌, nat_keyed, text_keyed, ◌≡◌, refl, ◌⊎◌, ◌≢◌, inl, inr,
  arith, In, any-intro, all-elim, Bool-cases, All, All-In, ok,
}
use be_code_redux.Paths.{dot, clean}
use be_code_redux.Subagent.Scope.{clean_job_scope, in_scope, within, overlap}
use be_code_redux.Subagent.Scope.Cleaning.{IsClean, clean_job_scope-IsClean}
use be_code_redux.Subagent.Scope.Covering.{
  covers-covers, below_total, in_scope-elim, in_scope-intro,
}

-- A path in both scopes makes one entry lie in the other scope.
shared-entry :
    (a b : List Text) (rel : Text)
    → All IsClean a
    → All IsClean b
    → in_scope a rel ≡ true
    → in_scope b rel ≡ true
    → ((x : Text) × In x a × (in_scope b x ≡ true)) ⊎ ((y : Text) × In y b × (in_scope a y ≡ true))
shared-entry a b rel ha hb h k =
    let (x, mx, cx) = in_scope-elim a rel h in
    let (y, my, cy) = in_scope-elim b rel k in
    let qx : clean x ≡ x = All-In IsClean x a ha mx in
    let qy : clean y ≡ y = All-In IsClean y b hb my in
    elim (Bool-cases (x == dot)) [
      | inl e ↦ inr (y, my, in_scope-intro a y x mx (ground arith))
      | inr nx ↦ elim (Bool-cases (y == dot)) [
        | inl e ↦ inl (x, mx, in_scope-intro b x y my (ground arith))
        | inr ny ↦ elim (below_total x y (clean rel) (ground arith) (ground arith)) [
          | inl e ↦ inr (y, my, in_scope-intro a y x mx (rw qy (ground arith)))
          | inr e ↦ inl (x, mx, in_scope-intro b x y my (rw qx (ground arith)))
        ]
      ]
    ]

pub overlap-disjoint :
    (a b : List Text)
    → All IsClean a
    → All IsClean b
    → overlap a b ≡ false
    → (rel : Text) → in_scope a rel ≡ true
    → in_scope b rel ≡ true
    → ⊥
unfolding overlap
overlap-disjoint a b ha hb h rel p q = elim (shared-entry a b rel ha hb p q) [
  | inl (x, m, e) ↦ ground (arith, any-intro (in_scope b) x a m e)
  | inr (y, m, e) ↦ ground (arith, any-intro (in_scope a) y b m e)
]

-- Where Within accepts a scope of clean paths inside a nonempty larger scope, each path in the
-- scope is in the larger one.
pub within-in_scope :
    (scope mx : List Text) (rel : Text)
    → All IsClean scope
    → within scope mx ≡ true
    → mx ≢ []
    → in_scope scope rel ≡ true
    → in_scope mx rel ≡ true
unfolding within
within-in_scope scope [] rel hs h ne p = absurd (ne refl)
within-in_scope scope (m ∷ ms) rel hs h ne p =
    let (s, ms', cs) = in_scope-elim scope rel p in
    let (t, mt, ct) = in_scope-elim (m ∷ ms) s (all-elim (in_scope (m ∷ ms)) s scope h ms') in
    let q : clean s ≡ s = All-In IsClean s scope hs ms' in
    in_scope-intro (m ∷ ms) rel t mt (covers-covers t s (clean rel) (rw q at ct) cs)

-- Two job scopes that CleanJobScope accepts and that Overlap tells apart have no path in common.
pub overlap-clean_job_scope :
    (ps qs a b : List Text)
    → clean_job_scope ps ≡ ok a
    → clean_job_scope qs ≡ ok b
    → overlap a b ≡ false
    → (rel : Text) → in_scope a rel ≡ true
    → in_scope b rel ≡ false
overlap-clean_job_scope ps qs a b ha hb h rel p = elim (Bool-cases (in_scope b rel)) [
  | inl e ↦ absurd (
      overlap-disjoint a b (clean_job_scope-IsClean ps a ha) (clean_job_scope-IsClean qs b hb) h rel
        p e)
  | inr e ↦ e
]
