-- ===== src/Schedule/Allow/Writing.antt =====
-- What write grants allow lies inside the workspace.
use be_code_redux.Base.{
  ℕ, List, [], ◌∷◌, ◌++◌, Bool, true, false, not, ◌||◌, Text, codes, nat_keyed, text_keyed, ◌==◌,
  has_prefix, has_prefix-split, Option, Result, ok, err, >>=-eq-ok, any, any-elim, any-intro, In,
  All, ◌≡◌, ◌≢◌, refl, sym, ap, subst, ◌∙◌, Bool-cases, inl, inr, arith, eq_of_beq, ok-injective,
  append_assoc,
}
use be_code_redux.Schedule.Cron.{cut}
use be_code_redux.Paths.{trim_space, split, join, clean, climbs, is_abs, slash, dot, dotdot}
use be_code_redux.Paths.Names.{
  IsName, IsInside, NoSlash, split_at_slash, clean-relative, clean-rooted,
}
use be_code_redux.Schedule.Allow.{
  Grant, write, GrantError, leaves, only, is_bad, kind_is, parse_kind, parse_grant, is_blank,
  parse_allowance, values, write_covers, write_allowed, broad,
}

module _ (is_control : ℕ → Bool) (lower : Text → Text)
    (path_match : Text → Text → Option Bool) where
  -- A write grant holds a cleaned path that stays in the workspace.
  abbrev Stays : Grant → Type 0
  Stays g =
      kind_is is_control lower path_match g.kind write ≡ true
      → (v : Text) × (g.value ≡ clean v) × (leaves v ≡ false)

  abbrev Good : Result GrantError Grant → Type 0
  Good (ok g) = Stays g
  Good (err e) = Unit

  parse_kind-Stays : (k v : Text) → Good (parse_kind is_control lower path_match k v)
  unfolding parse_kind
  parse_kind-Stays k v = elim (Bool-cases (k == codes "shell")) [
    | inl a ↦
        rw a (elim (Bool-cases (only (codes "* ") v)) [ inl b ↦ rw b tt | inr b ↦ rw b (λ w. cc) ])
    | inr a ↦ rw a (elim (Bool-cases (k == codes "write")) [
      | inl c ↦
          rw c (elim (Bool-cases (leaves v)) [ inl b ↦ rw b tt | inr b ↦ rw b (λ w. (v, refl, b)) ])
      | inr c ↦ rw c (elim (Bool-cases (k == codes "browser")) [
        | inl d ↦ rw d (elim (Bool-cases (only (codes "*. ") (lower v))) [
          | inl b ↦ rw b tt
          | inr b ↦ rw b (λ w. cc)
        ])
        | inr d ↦ rw d (elim (Bool-cases (k == codes "tool")) [
          | inl f ↦ rw f (elim (Bool-cases (only (codes "*? ") v)) [
            | inl b ↦ rw b tt
            | inr b ↦ rw b (elim (Bool-cases (is_bad (path_match v []))) [
              | inl h ↦ rw h tt
              | inr h ↦ rw h (λ w. cc)
            ])
          ])
          | inr f ↦ rw f tt
        ])
      ])
    ])
  ]

  parse_grant-Stays : (s : Text) → Good (parse_grant is_control lower path_match s)
  unfolding parse_grant
  parse_grant-Stays s = elim (Bool-cases (any is_control s)) [
    | inl a ↦ rw a tt
    | inr a ↦ rw a (elim (Bool-cases (not (cut b':' s).2 || (trim_space (cut b':' s).1 == []))) [
      | inl b ↦ rw b tt
      | inr b ↦
          rw b (parse_kind-Stays (lower (trim_space (cut b':' s).0)) (trim_space (cut b':' s).1))
    ])
  ]

  parse_allowance-Stays :
      (lines : List Text) (a : List Grant)
      → parse_allowance is_control lower path_match lines ≡ ok a
      → All Stays a
  unfolding parse_allowance
  parse_allowance-Stays [] a h = subst (All Stays) (ok-injective h) tt
  parse_allowance-Stays (l ∷ lines) a h =
      elim (Bool-cases (is_blank is_control lower path_match l)) [
        | inl e ↦ parse_allowance-Stays lines a (rw e at h)
        | inr e ↦
            let (g, read, later) = >>=-eq-ok _ _ (rw e at h) in
            let (b, rest, same) = >>=-eq-ok _ _ later in
            let all : All Stays (g ∷ b) =
              (subst Good read (parse_grant-Stays l), parse_allowance-Stays lines b rest) in
            subst (All Stays) (ok-injective same) all
      ]

  values-Stays :
      (a : List Grant) (p : Text)
      → All Stays a
      → In p (values is_control lower path_match write a)
      → (v : Text) × (p ≡ clean v) × (leaves v ≡ false)
  unfolding values
  values-Stays [] p h m = absurd m
  values-Stays (g ∷ a) p (hg, h) m =
      elim (Bool-cases (kind_is is_control lower path_match g.kind write)) [
        | inr e ↦ values-Stays a p h (rw e at m)
        | inl e ↦ elim (rw e at m) [
          | inr later ↦ values-Stays a p h later
          | inl here ↦ let (v, k, stays) = hg e in (v, sym here ∙ k, stays)
        ]
      ]

ne_dot : (c : ℕ) (w t : Text) → (((c ∷ w) ++ slash ∷ t) == dot) ≡ false
ne_dot c [] t = ground arith
ne_dot c (d ∷ w) t = ground arith

abbrev first : List Text → Text
first [] = []
first (w ∷ ws) = w

dotdot-NoSlash : NoSlash dotdot
dotdot-NoSlash = (omega arith, (omega arith, tt))

-- A path that starts with a proper name and a slash.
module _ (c : ℕ) (w t : Text) (name : IsName (c ∷ w)) where
  starts-relative : is_abs ((c ∷ w) ++ slash ∷ t) ≡ false
  starts-relative = let h : c ≢ slash = name.3.0 in ground (arith, h)

  -- Its first element is that name.
  starts-first : first (split slash ((c ∷ w) ++ slash ∷ t)) ≡ c ∷ w
  starts-first = ap first (split_at_slash (c ∷ w) t name.3)

  starts-stays : climbs ((c ∷ w) ++ slash ∷ t) ≡ false
  unfolding climbs split
  starts-stays = elim (Bool-cases (((c ∷ w) ++ slash ∷ t) == dotdot)) [
    | inl e ↦
        let same : (c ∷ w) ++ slash ∷ t ≡ dotdot = eq_of_beq e in
        absurd (name.2 (sym starts-first ∙ ap (λ x. first (split slash x)) same))
    | inr e ↦ elim (Bool-cases (has_prefix ((c ∷ w) ++ slash ∷ t) (codes "../"))) [
      | inr k ↦ rw e k
      | inl k ↦
          let (r, same) = has_prefix-split ((c ∷ w) ++ slash ∷ t) (codes "../") k in
          absurd (
            name.2 (
              sym starts-first
              ∙ ap (λ x. first (split slash x)) same
              ∙ ap first (split_at_slash dotdot r dotdot-NoSlash)))
    ]
  ]

-- A path below a proper one starts with a proper name and a slash.
record Starts (x : Text) : Type 0 where
  head : ℕ
  name : Text
  tail : Text
  proper : IsName (head ∷ name)
  starts : x ≡ (head ∷ name) ++ slash ∷ tail

below-Starts : (p t : Text) → IsInside p → Starts ((p ++ slash ∷ []) ++ t)
unfolding join
below-Starts p t i = go i.names i.some_name i.proper i.spells
  where
    named :
        (w rest : Text)
        → IsName w
        → p ++ slash ∷ t ≡ w ++ slash ∷ rest
        → Starts ((p ++ slash ∷ []) ++ t)
    named [] rest (ne, _, _, _) e = absurd (ne refl)
    named (c ∷ w) rest h e = record {
      head = c;
      name = w;
      tail = rest;
      proper = h;
      starts = append_assoc p (slash ∷ []) t ∙ e;
    }

    go :
        (ws : List Text)
        → ws ≢ []
        → All IsName ws
        → p ≡ join slash ws
        → Starts ((p ++ slash ∷ []) ++ t)
    go [] ne hs e = absurd (ne refl)
    go (w ∷ []) ne (h, hs) e = named w t h (ap (λ q. q ++ slash ∷ t) e)
    go (w ∷ v ∷ ws) ne (h, hs) e =
        named w (join slash (v ∷ ws) ++ slash ∷ t) h
          (ap (λ q. q ++ slash ∷ t) e ∙ append_assoc w (slash ∷ join slash (v ∷ ws)) (slash ∷ t))

-- What is strictly below a path inside the workspace is inside it.
below-IsInside :
    (p rel : Text)
    → IsInside p
    → has_prefix (clean rel) (p ++ slash ∷ []) ≡ true
    → IsInside (clean rel)
below-IsInside p rel i h =
    let (t, e) = has_prefix-split (clean rel) (p ++ slash ∷ []) h in
    let s = below-Starts p t i in
    let is : clean rel ≡ (s.head ∷ s.name) ++ slash ∷ s.tail = e ∙ s.starts in
    let relative : is_abs (clean rel) ≡ false =
      ap is_abs is ∙ starts-relative s.head s.name s.tail s.proper in
    elim (Bool-cases (is_abs rel)) [
      | inl a ↦ cc (clean-rooted rel a, relative)
      | inr a ↦
          clean-relative rel a (ap (λ x. x == dot) is ∙ ne_dot s.head s.name s.tail)
            (ap climbs is ∙ starts-stays s.head s.name s.tail s.proper)
    ]

-- Where an accepted allowance has no grant over the whole workspace, every path that WriteAllowed
-- accepts is, cleaned, strictly inside the workspace.
pub write_allowed-IsInside :
    (is_control : ℕ → Bool) (lower : Text → Text) (path_match : Text → Text → Option Bool)
    (lines : List Text) (a : List Grant) (rel : Text)
    → parse_allowance is_control lower path_match lines ≡ ok a
    → broad is_control lower path_match a ≡ false
    → write_allowed is_control lower path_match a rel ≡ true
    → IsInside (clean rel)
unfolding write_allowed broad
write_allowed-IsInside c l m lines a rel h narrow allowed =
    let (p, listed, covers) =
      any-elim (write_covers c l m (clean rel)) (values c l m write a) allowed in
    let (v, k, stays) = values-Stays c l m a p (parse_allowance-Stays c l m lines a h) listed in
    let not_dot : (p == dot) ≡ false = elim (Bool-cases (p == dot)) [
      | inr e ↦ e
      | inl e ↦ cc (any-intro (λ q. q == dot) p (values c l m write a) listed e, narrow)
    ] in
    let i : IsInside p =
      subst IsInside (sym k)
        (clean-relative v (ground (arith, stays)) (rw (← k) not_dot) (ground (arith, stays))) in
    elim (Bool-cases (clean rel == p)) [
      | inl e ↦ subst IsInside (sym (eq_of_beq e)) i
      | inr e ↦ below-IsInside p rel i (ground (arith, not_dot))
    ]
