-- ===== src/Tools/Capped/Ring.antt =====
-- The ring of the capped buffer: the bytes it holds, oldest first, and one byte more.
use be_code_redux.Base.{
  ℕ, zero, suc, ◌+◌, ◌%◌, ◌≤◌, ◌<◌, List, [], ◌∷◌, ◌++◌, nat_keyed, length, take, drop, set, ◌≡◌,
  refl, sym, ap, ◌∙◌, subst, arith, length-append, append-nil, append_assoc,
}
use native.Mathlib.Nat.{mod_self, mod-eq_of_lt}

-- From `start` round to the byte in front of it.
abbrev pub oldest_first : ℕ → List ℕ → List ℕ
oldest_first i t = drop i t ++ take i t

-- A list at a position in it: the bytes before, the byte, the bytes after.
pub record At (t : List ℕ) (i : ℕ) : Type 0 where
  pub before : List ℕ
  pub here : ℕ
  pub behind : List ℕ
  pub whole : t ≡ before ++ here ∷ behind
  pub place : i ≡ length before

at : (t : List ℕ) (i : ℕ) → i < length t → At t i
at [] i h = absurd (omega arith)
at (x ∷ t) zero h = record { before = []; here = x; behind = t; whole = refl; place = refl }
at (x ∷ t) (suc i) h =
    let r = at t i (omega arith) in
    record {
      before = x ∷ r.before;
      here = r.here;
      behind = r.behind;
      whole = ap (λ l. x ∷ l) r.whole;
      place = ap suc r.place;
    }

set_here : (u : List ℕ) (x c : ℕ) (v : List ℕ) → set (u ++ x ∷ v) (length u) c ≡ u ++ c ∷ v
set_here [] x c v = refl
set_here (y ∷ u) x c v = ap (λ l. y ∷ l) (set_here u x c v)

pub drop_front : (u v : List ℕ) → drop (length u) (u ++ v) ≡ v
drop_front [] v = refl
drop_front (x ∷ u) v = drop_front u v

pub take_front : (u v : List ℕ) → take (length u) (u ++ v) ≡ u
take_front [] v = refl
take_front (x ∷ u) v = ap (λ l. x ∷ l) (take_front u v)

-- Both halves of a list cut at the end of `u`.
oldest_first-cut : (u v : List ℕ) → oldest_first (length u) (u ++ v) ≡ v ++ u
oldest_first-cut u v = rw (drop_front u v) (rw (take_front u v) refl)

ring_step :
    (u : List ℕ) (x c : ℕ) (v : List ℕ)
    → oldest_first ((length u + 1) % length (u ++ x ∷ v)) (set (u ++ x ∷ v) (length u) c)
      ≡ drop 1 (oldest_first (length u) (u ++ x ∷ v)) ++ c ∷ []
ring_step u x c [] =
    let size : length (u ++ x ∷ []) ≡ length u + 1 = length-append u (x ∷ []) in
    rw (set_here u x c []) (
      rw (oldest_first-cut u (x ∷ []))
        (rw size (rw (mod_self (length u + 1)) (append-nil (u ++ c ∷ [])))))
ring_step u x c (y ∷ v) =
    let size : length (u ++ x ∷ y ∷ v) ≡ length u + suc (suc (length v)) =
      length-append u (x ∷ y ∷ v) in
    let next : (length u + 1) % length (u ++ x ∷ y ∷ v) ≡ length (u ++ c ∷ []) =
      mod-eq_of_lt (omega arith) ∙ sym (length-append u (c ∷ [])) in
    let same : set (u ++ x ∷ y ∷ v) (length u) c ≡ (u ++ c ∷ []) ++ y ∷ v =
      set_here u x c (y ∷ v) ∙ sym (append_assoc u (c ∷ []) (y ∷ v)) in
    rw next (
      rw same (
        rw (oldest_first-cut u (x ∷ y ∷ v))
          (rw (oldest_first-cut (u ++ c ∷ []) (y ∷ v)) (sym (append_assoc (y ∷ v) u (c ∷ []))))))

-- A write at `start` takes the oldest byte away and puts the new one last.
pub oldest_first-set :
    (t : List ℕ) (i c : ℕ)
    → i < length t
    → oldest_first ((i + 1) % length t) (set t i c) ≡ drop 1 (oldest_first i t) ++ c ∷ []
oldest_first-set t i c h =
    let r = at t i h in
    subst (λ l. oldest_first ((i + 1) % length l) (set l i c) ≡ drop 1 (oldest_first i l) ++ c ∷ [])
      (sym r.whole)
      (subst
        (λ k.
          oldest_first ((k + 1) % length (r.before ++ r.here ∷ r.behind))
            (set (r.before ++ r.here ∷ r.behind) k c)
          ≡ drop 1 (oldest_first k (r.before ++ r.here ∷ r.behind)) ++ c ∷ [])
        (sym r.place) (ring_step r.before r.here c r.behind))

pub drop-drop : (k : ℕ) (l : List ℕ) → drop 1 (drop k l) ≡ drop (suc k) l
drop-drop zero l = refl
drop-drop (suc k) [] = refl
drop-drop (suc k) (x ∷ l) = drop-drop k l

pub drop-append : (k : ℕ) (l m : List ℕ) → k ≤ length l → drop k (l ++ m) ≡ drop k l ++ m
drop-append zero l m h = refl
drop-append (suc k) [] m h = absurd (omega arith)
drop-append (suc k) (x ∷ l) m h = drop-append k l m (omega arith)
