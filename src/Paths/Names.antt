-- ===== src/Paths/Names.antt =====
-- Which paths path.Clean leaves as they are: names joined by slashes. And that a cleaned relative
-- path that is not `.`, `..` or below `..` has that form.
use mathlib.Core.List.{foldl, reverse, reverse_aux, reverse-reverse, cons-ne-nil}
use be_code_redux.Base.{
  ℕ, zero, suc, List, [], ◌∷◌, ◌++◌, Bool, true, false, ◌≡◌, ◌≢◌, refl, ap, ◌∙◌, arith, Text, All,
  ◌==◌, nat_keyed, text_keyed, text_beq_iff, Bool-cases, inl, inr, ◌||◌,
}
use be_code_redux.Paths.{
  slash, dot, dotdot, split, join, keep, kept, Kept, clean, is_abs, push_first, elements, finish,
  repeat_up, up, climbs,
}

abbrev pub NoSlash : Text → Type 0
NoSlash = All (λ c. c ≢ slash)

-- An element of a path that path.Clean keeps as a name.
abbrev pub IsName : Text → Type 0
IsName w = (w ≢ []) × (w ≢ dot) × (w ≢ dotdot) × NoSlash w

-- A path strictly inside the directory that it is relative to: one or more names.
pub record IsInside (s : Text) : Type 0 where
  pub names : List Text
  pub some_name : names ≢ []
  pub proper : All IsName names
  pub spells : s ≡ join slash names

clean_lem : (p : Text) → clean p ≡ finish (is_abs p) (join slash (elements (kept (is_abs p) p)))
unfolding clean
clean_lem p = refl

split-head : (c : ℕ) (s : Text) → c ≢ slash → split slash (c ∷ s) ≡ push_first c (split slash s)
unfolding split
split-head c s h = ground arith

split-NoSlash : (w : Text) → NoSlash w → split slash w ≡ w ∷ []
split-NoSlash [] h = unfold split in refl
split-NoSlash (c ∷ w) (hc, h) =
    split-head c w hc ∙ ap (push_first c) (split-NoSlash w h) ∙ unfold push_first in refl

pub split_at_slash : (w s : Text) → NoSlash w → split slash (w ++ slash ∷ s) ≡ w ∷ split slash s
split_at_slash [] s h = unfold split in refl
split_at_slash (c ∷ w) s (hc, h) =
    split-head c (w ++ slash ∷ s) hc
    ∙ ap (push_first c) (split_at_slash w s h)
    ∙ unfold push_first in refl

pub split-join :
    (w : Text) (ws : List Text) → All NoSlash (w ∷ ws) → split slash (join slash (w ∷ ws)) ≡ w ∷ ws
unfolding join
split-join w [] (h, _) = split-NoSlash w h
split-join w (v ∷ ws) (h, hs) =
    split_at_slash w (join slash (v ∷ ws)) h ∙ ap (λ l. w ∷ l) (split-join v ws hs)

pub IsName-NoSlash : (ws : List Text) → All IsName ws → All NoSlash ws
IsName-NoSlash [] h = tt
IsName-NoSlash (w ∷ ws) ((_, _, _, h), hs) = (h, IsName-NoSlash ws hs)

keep-IsName :
    (r : Bool) (k : Kept) (w : Text)
    → IsName w
    → keep r k w ≡ record { ups = k.ups; names = w ∷ k.names }
unfolding keep
keep-IsName r k w (a, b, c, _) =
    ground (arith, text_beq_iff w [], text_beq_iff w dot, text_beq_iff w dotdot)

foldl-keep :
    (r : Bool) (k : Kept) (ws : List Text)
    → All IsName ws
    → foldl (keep r) k ws ≡ record { ups = k.ups; names = reverse_aux ws k.names }
foldl-keep r k [] h = refl
foldl-keep r k (w ∷ ws) (hw, h) =
    ap (λ k'. foldl (keep r) k' ws) (keep-IsName r k w hw) ∙ foldl-keep r _ ws h

All-reverse_aux {ℓ κ} :
    {A : Type ℓ} (P : A → Type κ) (xs ys : List A) → All P xs → All P ys → All P (reverse_aux xs ys)
All-reverse_aux P [] ys hx hy = hy
All-reverse_aux P (x ∷ xs) ys (h, hx) hy = All-reverse_aux P xs (x ∷ ys) hx (h, hy)

join_first :
    (w : Text) (ws : List Text)
    → IsName w
    → (c : ℕ) × (r : Text) × (join slash (w ∷ ws) ≡ c ∷ r) × (c ≢ slash)
unfolding join
join_first [] ws h = absurd (h.0 refl)
join_first (c ∷ w) [] (_, _, _, (h, _)) = (c, w, refl, h)
join_first (c ∷ w) (v ∷ ws) (_, _, _, (h, _)) = (c, w ++ slash ∷ join slash (v ∷ ws), refl, h)

kept-join :
    (r : Bool) (w : Text) (ws : List Text)
    → All IsName (w ∷ ws)
    → kept r (join slash (w ∷ ws)) ≡ record { ups = 0; names = reverse (w ∷ ws) }
unfolding kept
kept-join r w ws h = rw (split-join w ws (IsName-NoSlash (w ∷ ws) h)) (foldl-keep r _ (w ∷ ws) h)

finish-join :
    (w : Text) (ws : List Text)
    → IsName w
    → finish (is_abs (join slash (w ∷ ws))) (join slash (w ∷ ws)) ≡ join slash (w ∷ ws)
unfolding finish
finish-join w ws h = let (c, r, e, ne) = join_first w ws h in rw e (ground arith)

elements-join : (ws : List Text) → elements (record { ups = 0; names = reverse ws }) ≡ ws
unfolding elements
elements-join ws = reverse-reverse ws

clean-join :
    (w : Text) (ws : List Text)
    → All IsName (w ∷ ws)
    → clean (join slash (w ∷ ws)) ≡ join slash (w ∷ ws)
clean-join w ws h =
    clean_lem (join slash (w ∷ ws))
    ∙ ap (λ k. finish (is_abs (join slash (w ∷ ws))) (join slash (elements k)))
        (kept-join (is_abs (join slash (w ∷ ws))) w ws h)
    ∙ ap (λ l. finish (is_abs (join slash (w ∷ ws))) (join slash l)) (elements-join (w ∷ ws))
    ∙ finish-join w ws h.0

-- path.Clean is the identity on names joined by slashes.
pub clean-IsInside : (s : Text) → IsInside s → clean s ≡ s
clean-IsInside s h = go h.names h.some_name h.proper h.spells
  where
    go : (ws : List Text) → ws ≢ [] → All IsName ws → s ≡ join slash ws → clean s ≡ s
    go [] ne hs e = absurd (ne refl)
    go (w ∷ ws) ne hs e = rw e (clean-join w ws hs)

-- Every name that path.Clean keeps is a name.
split-All-NoSlash : (s : Text) → All NoSlash (split slash s)
unfolding split push_first
split-All-NoSlash [] = (tt, tt)
split-All-NoSlash (c ∷ s) = grind (arith, split-All-NoSlash s)

up-IsName : (r : Bool) (n : ℕ) (ws : List Text) → All IsName ws → All IsName (up r n ws).names
unfolding up
up-IsName r n (w ∷ ws) h = h.1
up-IsName true n [] h = tt
up-IsName false n [] h = tt

keep-All-IsName :
    (r : Bool) (k : Kept) (w : Text)
    → NoSlash w
    → All IsName k.names
    → All IsName (keep r k w).names
unfolding keep
keep-All-IsName r k w hw h = elim (Bool-cases (w == [] || w == dot)) [
  | inl e ↦ rw e h
  | inr e ↦ rw e (elim (Bool-cases (w == dotdot)) [
    | inl e' ↦ rw e' (up-IsName r k.ups k.names h)
    | inr e' ↦
        rw e' (ground (arith, text_beq_iff w [], text_beq_iff w dot, text_beq_iff w dotdot), h)
  ])
]

foldl-All-IsName :
    (r : Bool) (k : Kept) (ws : List Text)
    → All NoSlash ws
    → All IsName k.names
    → All IsName (foldl (keep r) k ws).names
foldl-All-IsName r k [] hw h = h
foldl-All-IsName r k (w ∷ ws) (hw, hs) h =
    foldl-All-IsName r (keep r k w) ws hs (keep-All-IsName r k w hw h)

kept-IsName : (r : Bool) (s : Text) → All IsName (kept r s).names
unfolding kept
kept-IsName r s = foldl-All-IsName r _ _ (split-All-NoSlash s) tt

climbs-up : (ws : List Text) → climbs (finish false (join slash (dotdot ∷ ws))) ≡ true
unfolding climbs finish join
climbs-up [] = refl
climbs-up (w ∷ ws) = refl

finish-IsInside :
    (n : ℕ) (ws : List Text)
    → All IsName ws
    → (finish false (join slash (repeat_up n ws)) == dot) ≡ false
    → climbs (finish false (join slash (repeat_up n ws))) ≡ false
    → IsInside (finish false (join slash (repeat_up n ws)))
unfolding repeat_up
finish-IsInside (suc n) ws h e c = absurd (cc (climbs-up (repeat_up n ws)))
finish-IsInside zero [] h e c = unfold finish join in cc
finish-IsInside zero (w ∷ ws) h e c =
    let (c, r, first, ne) = join_first w ws h.0 in
    record {
      names = w ∷ ws;
      some_name = cons-ne-nil w ws;
      proper = h;
      spells = rw first (unfold finish in refl);
    }

clean_rel :
    (p : Text)
    → is_abs p ≡ false
    → clean p
      ≡ finish false (join slash (repeat_up (kept false p).ups (reverse (kept false p).names)))
unfolding elements
clean_rel p rel = clean_lem p ∙ rw rel refl

-- A cleaned relative path that is not `.` and does not climb out is names joined by slashes.
pub clean-relative :
    (p : Text)
    → is_abs p ≡ false
    → (clean p == dot) ≡ false
    → climbs (clean p) ≡ false
    → IsInside (clean p)
clean-relative p rel e c =
    let q = clean_rel p rel in
    rw q (
      finish-IsInside (kept false p).ups (reverse (kept false p).names)
        (All-reverse_aux IsName (kept false p).names [] (kept-IsName false p) tt) (rw q at e)
        (rw q at c))

pub clean-rooted : (p : Text) → is_abs p ≡ true → is_abs (clean p) ≡ true
unfolding finish
clean-rooted p h = rw (clean_lem p) (rw h refl)
