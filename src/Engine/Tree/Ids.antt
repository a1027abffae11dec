-- ===== src/Engine/Tree/Ids.antt =====
-- Ids by position: how an id is spelled, and the index that nextIndex reads back from it.
use be_code_redux.Base.{
  ℕ, ◌+◌, ◌≤◌, ◌<◌, List, [], ◌∷◌, ◌++◌, true, false, Text, text_keyed, nat_keyed, ◌==◌,
  if◌then◌else◌, ltb, ◌≡◌, ◌≢◌, refl, sym, ap, ◌∙◌, arith, All, All-map, ◌⊎◌, inl, inr,
  append_assoc, append-nil,
}
use be_code_redux.Decimal.{atoi, itoa, int_text, int_limit}
use be_code_redux.Decimal.RoundTrip.{IsDigit, itoa-IsDigit, atoi-itoa}
use be_code_redux.Engine.Tree.{NodeInfo, dot, nonneg, last_part, index_of, max_index, next_text}

abbrev pub NoDot : Text → Type 0
NoDot s = All (λ c. c ≢ dot) s

digit-ne-dot : (c : ℕ) → IsDigit c → c ≢ dot
digit-ne-dot c h e = absurd (ground arith)

pub itoa-NoDot : (k : ℕ) → NoDot (itoa k)
itoa-NoDot k = All-map digit-ne-dot (itoa k) (itoa-IsDigit k)

last_part-NoDot : (seen w : Text) → NoDot w → last_part seen w ≡ seen ++ w
unfolding last_part
last_part-NoDot seen [] h = sym (append-nil seen)
last_part-NoDot seen (c ∷ w) (hc, h) =
    let e : (c == dot) ≡ false = ground arith in
    rw e (last_part-NoDot (seen ++ c ∷ []) w h ∙ append_assoc seen (c ∷ []) w)

last_part-dot : (seen p w : Text) → NoDot w → last_part seen (p ++ dot ∷ w) ≡ w
unfolding last_part
last_part-dot seen [] w h = last_part-NoDot [] w h
last_part-dot seen (c ∷ p) w h = last_part-dot (if c == dot then [] else seen ++ c ∷ []) p w h

-- What stands before the index in an id: nothing, or an id and a dot.
abbrev pub IsPrefix : Text → Type 0
IsPrefix pre = (pre ≡ []) ⊎ ((p : Text) × (pre ≡ p ++ dot ∷ []))

last_part-IsPrefix : (pre w : Text) → IsPrefix pre → NoDot w → last_part [] (pre ++ w) ≡ w
last_part-IsPrefix pre w (inl e) h = rw e (last_part-NoDot [] w h)
last_part-IsPrefix pre w (inr (p, e)) h =
    rw e (rw (append_assoc p (dot ∷ []) w) (last_part-dot [] p w h))

pub index_of-itoa :
    (pre : Text) (k : ℕ) → IsPrefix pre → k < int_limit → index_of (pre ++ itoa k) ≡ k
unfolding index_of
index_of-itoa pre k h small =
    ap (λ s. nonneg (atoi s).0) (last_part-IsPrefix pre (itoa k) h (itoa-NoDot k))
    ∙ ap (λ r. nonneg r.0) (atoi-itoa k small)

pub index_of-le : (ns : List NodeInfo) → All (λ m. index_of m.id ≤ max_index ns) ns
unfolding max_index
index_of-le [] = tt
index_of-le (n ∷ ns) = (omega arith, All-map (λ m h. omega arith) ns (index_of-le ns))

pub max_index-room :
    (ns : List NodeInfo)
    → All (λ m. index_of m.id + 1 < int_limit) ns
    → max_index ns + 1 < int_limit
unfolding max_index
max_index-room [] h = omega arith
max_index-room (n ∷ ns) (first, h) = omega (arith, max_index-room ns h)

-- The id that Add forms is no sibling's.
pub next_text-fresh :
    (pre : Text) (ns : List NodeInfo)
    → IsPrefix pre
    → max_index ns + 1 < int_limit
    → (next_text ns ≡ itoa (max_index ns + 1)) × All (λ m. m.id ≢ pre ++ next_text ns) ns
unfolding next_text int_text
next_text-fresh pre ns h room =
    let k = max_index ns + 1 in
    let small : ltb k int_limit ≡ true = ground arith in
    rw small (
      refl,
      All-map (λ m le e. absurd (omega (arith, ap index_of e, index_of-itoa pre k h room))) ns
          (index_of-le ns),
    )

-- Two texts without dots, each with nothing behind it or a dot and more.
abbrev pub IsTail : Text → Type 0
IsTail r = (r ≡ []) ⊎ ((s : Text) × (r ≡ dot ∷ s))

pub same_part : (u v r s : Text) → NoDot u → NoDot v → IsTail r → IsTail s → u ++ r ≡ v ++ s → u ≡ v
same_part [] [] r s hu hv tr ts e = refl
same_part [] (c ∷ v) r s hu (hc, hv) (inl t) ts e = cc (t, e)
same_part [] (c ∷ v) r s hu (hc, hv) (inr (r', t)) ts e = absurd (hc (cc (t, e)))
same_part (c ∷ u) [] r s (hc, hu) hv tr (inl t) e = cc (t, e)
same_part (c ∷ u) [] r s (hc, hu) hv tr (inr (s', t)) e = absurd (hc (cc (t, e)))
same_part (c ∷ u) (d ∷ v) r s (hc, hu) (hd, hv) tr ts e =
    let first : c ≡ d = cc (e) in
    let more : u ≡ v = same_part u v r s hu hv tr ts (cc (e)) in cc (first, more)

pub append-cancel : (p u v : Text) → p ++ u ≡ p ++ v → u ≡ v
append-cancel [] u v e = e
append-cancel (c ∷ p) u v e = append-cancel p u v (cc (e))
