-- ===== src/Base/Texts.antt =====
-- Go strings and byte slices as lists of code points or bytes, with the tests of package strings on them.
use Prim.Native.Nat.{ℕ}
use Prim.Native.Char.{code}
use Prim.Native.String.{String}
use mathlib.Core.Path.{◌≡◌, refl}
use mathlib.Core.Logic.{◌↔◌, ◌⊎◌, inl, inr}
use mathlib.Core.Bool.{Bool, true, false, ◌&&◌}
use mathlib.Core.List.{List, [], ◌∷◌, ◌++◌}
use native.Mathlib.Omega.{arith}
use be_code_redux.Base.Tests.{nat_beq, Keyed}

abbrev pub Text : Type 0
Text = List ℕ

-- The code points of a literal: its bytes, as all literals here are ASCII.
abbrev pub codes : String → Text
codes String.[] = []
codes (String.◌∷◌ c s) = code c ∷ codes s

abbrev pub text_beq : Text → Text → Bool
text_beq [] [] = true
text_beq (x ∷ xs) (y ∷ ys) = nat_beq x y && text_beq xs ys
text_beq _ _ = false

text_beq-eq : (s t : Text) → text_beq s t ≡ true → s ≡ t
text_beq-eq [] [] h = refl
text_beq-eq [] (y ∷ ys) h = cc
text_beq-eq (x ∷ xs) [] h = cc
text_beq-eq (x ∷ xs) (y ∷ ys) h = ground (arith, text_beq-eq xs ys)

text_beq_self : (s : Text) → text_beq s s ≡ true
text_beq_self [] = refl
text_beq_self (x ∷ xs) = ground (arith, text_beq_self xs)

pub text_beq_iff : (s t : Text) → (text_beq s t ≡ true) ↔ (s ≡ t)
text_beq_iff s t = (text_beq-eq s t, λ e. rw e (text_beq_self t))

instance abbrev pub text_keyed : Keyed Text
text_keyed = record { same = text_beq; same_iff = text_beq_iff }

-- strings.HasPrefix s p
abbrev pub has_prefix : Text → Text → Bool
has_prefix s [] = true
has_prefix [] (y ∷ p) = false
has_prefix (x ∷ s) (y ∷ p) = nat_beq x y && has_prefix s p

pub has_prefix-append : (p s : Text) → has_prefix (p ++ s) p ≡ true
has_prefix-append [] s = refl
has_prefix-append (x ∷ p) s = ground (arith, has_prefix-append p s)

pub has_prefix-split : (s p : Text) → has_prefix s p ≡ true → (r : Text) × (s ≡ p ++ r)
has_prefix-split s [] h = (s, refl)
has_prefix-split [] (y ∷ p) h = absurd (ground arith)
has_prefix-split (x ∷ s) (y ∷ p) h =
    let (r, e) = has_prefix-split s p (ground arith) in (r, ground arith)

pub has_prefix_trans :
    (s p q : Text) → has_prefix s p ≡ true → has_prefix p q ≡ true → has_prefix s q ≡ true
has_prefix_trans s p [] h k = refl
has_prefix_trans s [] (z ∷ q) h k = cc
has_prefix_trans [] (y ∷ p) (z ∷ q) h k = cc
has_prefix_trans (x ∷ s) (y ∷ p) (z ∷ q) h k = ground (arith, has_prefix_trans s p q)

-- Of two prefixes of one text, one is a prefix of the other.
pub has_prefix_total :
    (s p q : Text)
    → has_prefix s p ≡ true
    → has_prefix s q ≡ true
    → (has_prefix p q ≡ true) ⊎ (has_prefix q p ≡ true)
has_prefix_total s p [] h k = inl refl
has_prefix_total s [] (z ∷ q) h k = inr refl
has_prefix_total [] (y ∷ p) (z ∷ q) h k = cc
has_prefix_total (x ∷ s) (y ∷ p) (z ∷ q) h k = ground (arith, has_prefix_total s p q)

pub has_prefix_self : (s : Text) → has_prefix s s ≡ true
has_prefix_self [] = refl
has_prefix_self (x ∷ s) = ground (arith, has_prefix_self s)
