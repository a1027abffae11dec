-- ===== src/Subagent/Scope/Cleaning.antt =====
-- What CleanScope and CleanJobScope accept (internal/subagent/scope.go).
use be_code_redux.Base.{
  List, [], ◌∷◌, ◌++◌, false, Text, ◌==◌, nat_keyed, text_keyed, ◌≡◌, refl, ap, ◌⊎◌, ◌≢◌, inl, inr,
  arith, All, All-append, All-map, length, ok, >>=-eq-ok, ok-injective, suc,
}
use be_code_redux.Paths.{dot, clean, climbs, trim_space, is_abs}
use be_code_redux.Paths.Names.{IsInside, clean-IsInside, clean-relative}
use be_code_redux.Subagent.Scope.{
  clean_entry, clean_scope, clean_job_scope, job_entry, job_entries, JobEntries, job_scope,
}

-- The guards that an accepted entry has passed.
clean_entry-guards :
    (p c : Text)
    → clean_entry p ≡ ok c
    → (c ≡ clean (trim_space p))
      × (is_abs (trim_space p) ≡ false)
      × ((clean (trim_space p) == dot) ≡ false)
      × (climbs (clean (trim_space p)) ≡ false)
unfolding clean_entry
clean_entry-guards p c h = ground arith

clean_entry-IsInside : (p c : Text) → clean_entry p ≡ ok c → IsInside c
clean_entry-IsInside p c h =
    let (e, rel, n, k) = clean_entry-guards p c h in rw e (clean-relative (trim_space p) rel n k)

-- Every entry that CleanScope returns is one or more proper names joined by slashes, so it lies
-- strictly inside the workspace; and it returns one entry for each that it was given.
pub clean_scope-IsInside :
    (ps out : List Text) → clean_scope ps ≡ ok out → All IsInside out × (length out ≡ length ps)
unfolding clean_scope
clean_scope-IsInside [] out h = rw (← ok-injective h) (tt, refl)
clean_scope-IsInside (p ∷ ps) out h =
    let (c, hc, h') = >>=-eq-ok (clean_entry p) _ h in
    let (cs, hcs, e) = >>=-eq-ok (clean_scope ps) _ h' in
    let (inside, len) = clean_scope-IsInside ps cs hcs in
    rw (← ok-injective e) ((clean_entry-IsInside p c hc, inside), ap suc len)

-- A round that goes on keeps the entries, or adds those that CleanScope makes of one path.
job_entry-cases :
    (acc acc' : JobEntries) (p : Text)
    → job_entry acc p ≡ ok acc'
    → (acc'.out ≡ acc.out)
      ⊎ ((entry : List Text) × (clean_scope (trim_space p ∷ []) ≡ ok entry)
          × (acc'.out ≡ acc.out ++ entry))
unfolding job_entry
job_entry-cases acc acc' p h = ground arith

job_entry-IsInside :
    (acc acc' : JobEntries) (p : Text)
    → job_entry acc p ≡ ok acc'
    → All IsInside acc.out
    → All IsInside acc'.out
job_entry-IsInside acc acc' p h inside = elim (job_entry-cases acc acc' p h) [
  | inl e ↦ rw e inside
  | inr (entry, ran, e) ↦
      rw e (All-append IsInside acc.out entry inside (clean_scope-IsInside _ entry ran).0)
]

job_entries-IsInside :
    (acc r : JobEntries) (ps : List Text)
    → job_entries acc ps ≡ ok r
    → All IsInside acc.out
    → All IsInside r.out
unfolding job_entries
job_entries-IsInside acc r [] h inside = rw (← ok-injective h) inside
job_entries-IsInside acc r (p ∷ ps) h inside =
    let (acc', one, rest) = >>=-eq-ok (job_entry acc p) _ h in
    job_entries-IsInside acc' r ps rest (job_entry-IsInside acc acc' p one inside)

job_scope-cases :
    (r : JobEntries) (out : List Text)
    → job_scope r ≡ ok out
    → (out ≡ dot ∷ []) ⊎ ((out ≢ []) × (out ≡ r.out))
unfolding job_scope
job_scope-cases r out h = ground arith

-- A job's scope is the whole workspace alone, or one or more entries strictly inside it.
pub clean_job_scope-cases :
    (ps out : List Text)
    → clean_job_scope ps ≡ ok out
    → (out ≡ dot ∷ []) ⊎ ((out ≢ []) × All IsInside out)
unfolding clean_job_scope
clean_job_scope-cases ps out h =
    let (r, loop, last) = >>=-eq-ok (job_entries (record { whole = false; out = [] }) ps) _ h in
    elim (job_scope-cases r out last) [
      | inl e ↦ inl e
      | inr (ne, e) ↦ inr (ne, rw e (job_entries-IsInside _ r ps loop tt))
    ]

abbrev pub IsClean : Text → Type 0
IsClean s = clean s ≡ s

IsClean-dot : IsClean dot
unfolding clean
IsClean-dot = refl

pub clean_job_scope-IsClean : (ps out : List Text) → clean_job_scope ps ≡ ok out → All IsClean out
clean_job_scope-IsClean ps out h = elim (clean_job_scope-cases ps out h) [
  | inl e ↦ rw e (IsClean-dot, tt)
  | inr (ne, inside) ↦ All-map clean-IsInside out inside
]
