-- ===== src/Live/Crlf.antt =====
-- internal/live/crlf.go: bare line feeds become carriage return and line feed.
use be_code_redux.Base.{
  ℕ, List, [], ◌∷◌, ◌++◌, Bool, true, not, ◌&&◌, nat_keyed, ◌==◌, if◌then◌else◌, ◌≡◌, refl, ap,
  arith, Bool-cases, inl, inr, Option, none, some, length,
}

abbrev pub lf : ℕ
lf = 10

abbrev pub cr : ℕ
cr = 13

-- The loop of Write from the state `last_cr`: the bytes out and the state after them.
unfoldable pub translate : Bool → List ℕ → List ℕ × Bool
translate last_cr [] = ([], last_cr)
translate last_cr (b ∷ p) =
    let (out, last) = translate (b == cr) p in
    ((if (b == lf) && not last_cr then cr ∷ b ∷ out else b ∷ out), last)

-- Write, with the writer it wraps as a parameter that may return an error: the state after it, the
-- count and the error.
unfoldable pub crlf_write :
    {E : Type 0} → (List ℕ → Option E) → Bool → List ℕ → Bool × (ℕ × Option E)
unfolding translate
crlf_write w last_cr p =
    let (out, last) = translate last_cr p in
    (last, elim (w out) [ none ↦ (length p, none) | some e ↦ (0, some e) ])

-- Each line feed has a carriage return in front of it.
abbrev pub NoBareLf : Bool → List ℕ → Type 0
NoBareLf last_cr [] = Unit
NoBareLf last_cr (b ∷ p) = (b ≡ lf → last_cr ≡ true) × NoBareLf (b == cr) p

abbrev pub without_cr : List ℕ → List ℕ
without_cr [] = []
without_cr (b ∷ p) = if b == cr then without_cr p else b ∷ without_cr p

-- What Write hands on has no bare line feed and differs from its input in carriage returns only.
pub translate-NoBareLf :
    (last_cr : Bool) (p : List ℕ)
    → NoBareLf last_cr (translate last_cr p).0 × (without_cr (translate last_cr p).0 ≡ without_cr p)
unfolding translate
translate-NoBareLf last_cr [] = (tt, refl)
translate-NoBareLf last_cr (b ∷ p) =
    let (n, w) = translate-NoBareLf (b == cr) p in
    elim (Bool-cases ((b == lf) && not last_cr)) [
      | inl e ↦ rw e ((λ d. absurd (omega (arith, d)), (λ d. refl, n)), rw w refl)
      | inr e ↦ rw e ((λ d. ground arith, n), rw w refl)
    ]

-- Input without a bare line feed goes through as it is.
pub translate_same :
    (last_cr : Bool) (p : List ℕ) → NoBareLf last_cr p → (translate last_cr p).0 ≡ p
unfolding translate
translate_same last_cr [] h = refl
translate_same last_cr (b ∷ p) (first, h) = elim (Bool-cases ((b == lf) && not last_cr)) [
  | inl e ↦ absurd (ground arith)
  | inr e ↦ rw e (ap (λ l. b ∷ l) (translate_same (b == cr) p h))
]

-- Where a text is cut into writes makes no difference.
pub translate-append :
    (last_cr : Bool) (p q : List ℕ)
    → translate last_cr (p ++ q) ≡ (
      (translate last_cr p).0 ++ (translate (translate last_cr p).1 q).0,
      (translate (translate last_cr p).1 q).1,
    )
unfolding translate
translate-append last_cr [] q = refl
translate-append last_cr (b ∷ p) q =
    rw (translate-append (b == cr) p q)
      (elim (Bool-cases ((b == lf) && not last_cr)) [ inl e ↦ rw e refl | inr e ↦ rw e refl ])
