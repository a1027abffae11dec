-- ===== src/Subagent/Scope/Covering.antt =====
-- What one scope entry covers, as a relation on paths: `covers s r` extends both by a slash.
use be_code_redux.Base.{
  List, [], ◌∷◌, ◌++◌, Bool, true, false, ◌||◌, Text, ◌==◌, nat_keyed, text_keyed, ◌≡◌, refl, sym,
  ap, ◌∙◌, subst, ◌⊎◌, ◌≢◌, inl, inr, has_prefix, has_prefix_trans, arith, In, any-intro, any-elim,
  Bool-cases, ◌↔◌, eq_of_beq, has_prefix-append, All, append_assoc, append-nil, has_prefix-split,
  has_prefix_self,
}
use be_code_redux.Paths.{slash, dot, clean, split, join}
use be_code_redux.Paths.Under.{under, under_lem, under_total}
use be_code_redux.Paths.Names.{
  IsInside, IsName, IsName-NoSlash, clean-IsInside, NoSlash, split_at_slash, split-join,
}
use be_code_redux.Subagent.Scope.{entry_covers, in_scope}

-- Equal to `s`, or below it.
abbrev pub below : Text → Text → Bool
below s r = under slash s r

pub entry_covers_lem : (r s : Text) → entry_covers r s ≡ (s == dot || below s r)
unfolding entry_covers
entry_covers_lem r s = ap (λ b. s == dot || b) (under_lem slash r s)

abbrev pub covers : Text → Text → Bool
covers s r = s == dot || below s r

pub covers_trans : (s t r : Text) → covers s t ≡ true → below t r ≡ true → covers s r ≡ true
covers_trans s t r h k =
    ground (arith, has_prefix_trans (r ++ slash ∷ []) (t ++ slash ∷ []) (s ++ slash ∷ []))

pub below_total :
    (s t r : Text) → below s r ≡ true → below t r ≡ true → (below s t ≡ true) ⊎ (below t s ≡ true)
below_total = under_total slash

pub in_scope-elim :
    (scope : List Text) (rel : Text)
    → in_scope scope rel ≡ true
    → (s : Text) × In s scope × (covers s (clean rel) ≡ true)
unfolding in_scope
in_scope-elim scope rel h =
    let (s, m, e) = any-elim (entry_covers (clean rel)) scope h in
    (s, m, sym (entry_covers_lem (clean rel) s) ∙ e)

pub in_scope-intro :
    (scope : List Text) (rel s : Text)
    → In s scope
    → covers s (clean rel) ≡ true
    → in_scope scope rel ≡ true
unfolding in_scope
in_scope-intro scope rel s m h =
    any-intro (entry_covers (clean rel)) s scope m (entry_covers_lem (clean rel) s ∙ h)

-- A split path, behind the elements of a directory above it.
split-below :
    (w : Text) (ws : List Text) (t : Text)
    → All NoSlash (w ∷ ws)
    → split slash (join slash (w ∷ ws) ++ slash ∷ t) ≡ (w ∷ ws) ++ split slash t
unfolding join
split-below w [] t (h, _) = split_at_slash w t h
split-below w (v ∷ ws) t (h, hs) =
    ap (split slash) (append_assoc w (slash ∷ join slash (v ∷ ws)) (slash ∷ t))
    ∙ split_at_slash w (join slash (v ∷ ws) ++ slash ∷ t) h
    ∙ ap (λ l. w ∷ l) (split-below v ws t hs)

join-append :
    (w : Text) (ws : List Text) (v : Text) (vs : List Text)
    → join slash ((w ∷ ws) ++ v ∷ vs) ≡ join slash (w ∷ ws) ++ slash ∷ join slash (v ∷ vs)
unfolding join
join-append w [] v vs = refl
join-append w (u ∷ ws) v vs =
    ap (λ t. w ++ slash ∷ t) (join-append u ws v vs)
    ∙ sym (append_assoc w (slash ∷ join slash (u ∷ ws)) (slash ∷ join slash (v ∷ vs)))

-- `ns` begins with `ms`.
pub data Begins (ms ns : List Text) : Type 0 where
  with_rest : (rest : List Text) → ns ≡ ms ++ rest → Begins ms ns

below-Begins :
    (w : Text) (ws : List Text) (r : Text)
    → All NoSlash (w ∷ ws)
    → below (join slash (w ∷ ws)) r ≡ true
    → Begins (w ∷ ws) (split slash r)
below-Begins w ws r h k =
    let s = join slash (w ∷ ws) in
    let k' : (r == s || has_prefix r (s ++ slash ∷ [])) ≡ true = under_lem slash r s ∙ k in
    elim (Bool-cases (r == s)) [
      | inl e ↦
          with_rest []
            (ap (split slash) (eq_of_beq e) ∙ split-join w ws h ∙ sym (append-nil (w ∷ ws)))
      | inr e ↦
          let (t, q) = has_prefix-split r (s ++ slash ∷ []) (rw e at k') in
          with_rest (split slash t)
            (ap (split slash) (q ∙ append_assoc s (slash ∷ []) t) ∙ split-below w ws t h)
    ]

Begins-below :
    (w : Text) (ws ns : List Text)
    → Begins (w ∷ ws) ns
    → below (join slash (w ∷ ws)) (join slash ns) ≡ true
Begins-below w ws ns (with_rest [] e) =
    rw (e ∙ append-nil (w ∷ ws)) (has_prefix_self (join slash (w ∷ ws) ++ slash ∷ []))
Begins-below w ws ns (with_rest (u ∷ us) e) =
    let s = join slash (w ∷ ws) in
    rw (e ∙ refl) (
      rw (join-append w ws u us) (
        rw (append_assoc s (slash ∷ join slash (u ∷ us)) (slash ∷ [])) (
          rw (← append_assoc s (slash ∷ []) (join slash (u ∷ us) ++ slash ∷ []))
            (has_prefix-append (s ++ slash ∷ []) (join slash (u ∷ us) ++ slash ∷ [])))))

split-dot : split slash dot ≡ dot ∷ []
unfolding split
split-dot = refl

join-ne-dot :
    (w : Text) (ws : List Text) → All IsName (w ∷ ws) → (join slash (w ∷ ws) == dot) ≡ false
join-ne-dot w ws h = elim (Bool-cases (join slash (w ∷ ws) == dot)) [
  | inl e ↦
      let q = sym (split-join w ws (IsName-NoSlash (w ∷ ws) h)) ∙ ap (split slash) (eq_of_beq e) in
      absurd (h.0.1 (cc (q ∙ split-dot)))
  | inr e ↦ e
]

in_scope_one : (s r : Text) → clean r ≡ r → (s == dot) ≡ false → in_scope (s ∷ []) r ≡ below s r
unfolding in_scope
in_scope_one s r c n = rw (entry_covers_lem (clean r) s) (rw c (rw n (ground arith)))

in_scope_names :
    (w : Text) (ws : List Text) (v : Text) (vs : List Text)
    → All IsName (w ∷ ws)
    → All IsName (v ∷ vs)
    → (below (join slash (w ∷ ws)) (join slash (v ∷ vs)) ≡ true) ↔ Begins (w ∷ ws) (v ∷ vs)
in_scope_names w ws v vs hs hr = (
  λ k.
      rw (split-join v vs (IsName-NoSlash (v ∷ vs) hr)) at
        (below-Begins w ws (join slash (v ∷ vs)) (IsName-NoSlash (w ∷ ws) hs) k),
  Begins-below w ws (v ∷ vs),
)

-- For paths that stay inside, one entry covers the other path exactly when its names, the elements
-- between slashes, are the first names of that path.
pub in_scope_iff :
    (s r : Text) (hs : IsInside s) (hr : IsInside r)
    → (in_scope (s ∷ []) r ≡ true) ↔ Begins hs.names hr.names
in_scope_iff s r hs hr =
    go hs.names hr.names hs.some_name hr.some_name hs.proper hr.proper hs.spells hr.spells
  where
    go :
        (ns ms : List Text)
        → ns ≢ []
        → ms ≢ []
        → All IsName ns
        → All IsName ms
        → s ≡ join slash ns
        → r ≡ join slash ms
        → (in_scope (s ∷ []) r ≡ true) ↔ Begins ns ms
    go [] ms n m hn hm e f = absurd (n refl)
    go (w ∷ ws) [] n m hn hm e f = absurd (m refl)
    go (w ∷ ws) (v ∷ vs) n m hn hm e f =
        rw (in_scope_one s r (clean-IsInside r hr) (rw e (join-ne-dot w ws hn)))
          (rw (e, f) (in_scope_names w ws v vs hn hm))

-- Only the entry `.` covers the whole workspace.
covers-dot : (t : Text) → covers t dot ≡ true → (t == dot) ≡ true
covers-dot [] h = cc
covers-dot (a ∷ []) h = ground arith
covers-dot (a ∷ b ∷ []) h = ground arith
covers-dot (a ∷ b ∷ c ∷ t) h = ground arith

-- What an entry covers, the entries above it cover.
pub covers-covers : (t s r : Text) → covers t s ≡ true → covers s r ≡ true → covers t r ≡ true
covers-covers t s r h k = elim (Bool-cases (s == dot)) [
  | inl e ↦ ground (arith, covers-dot t (subst (λ u. covers t u ≡ true) (eq_of_beq e) h))
  | inr e ↦ covers_trans t s r h (rw e at k)
]
