-- ===== src/Schedule/Cron/Fields.antt =====
-- Whole fields: each is read to an end, and its flags are the values that one of its parts covers.
use be_code_redux.Base.{
  ℕ, ◌+◌, ◌^◌, ◌≤◌, ◌<◌, List, [], ◌∷◌, true, Text, text_keyed, nat_keyed, Result, ok, err, ◌>>=◌,
  ◌∙◌, ap, ◌≡◌, ◌≢◌, refl, sym, subst, arith, ◌⊎◌, inl, inr, ◌↔◌, All, In, ok-injective,
}
use be_code_redux.Paths.{split}
use be_code_redux.Decimal.{int_limit}
use be_code_redux.Schedule.Cron.{
  FieldError, endless, Span, word, has_bit, step_bits, round_limit, ended, part_span, span_bits,
  parts_bits, cron_field,
}
use be_code_redux.Schedule.Cron.Rounds.{OnGrid, Sets, step_bits-Sets, step_bits-ends}
use be_code_redux.Schedule.Cron.Parts.{IsInside, Bounded, part_span-Bounded}

result-cases :
    (r : Result FieldError Span) → ((s : Span) × (r ≡ ok s)) ⊎ ((e : FieldError) × (r ≡ err e))
result-cases (ok s) = inl (s, refl)
result-cases (err e) = inr (e, refl)

-- The loop over a span that lies inside its field ends.
span_bits-ends :
    (lo hi : ℕ) (bits : List ℕ) (s : Span)
    → hi < 64
    → IsInside lo hi s
    → (r : List ℕ) × (span_bits bits s ≡ ok r)
unfolding span_bits
span_bits-ends lo hi bits s hb i =
    let (r, e) =
      step_bits-ends i.from i.to s.step bits (omega (arith, i.below)) i.moves i.step_int i.int in
    (
      r,
      ap (λ z. ended (step_bits round_limit (word z) (word s.last) s.step bits)) i.first_is
          ∙ ap (λ z. ended (step_bits round_limit i.from (word z) s.step bits)) i.last_is
          ∙ ap ended e,
    )

abbrev Ends : Result FieldError (List ℕ) → Type 0
Ends r = r ≢ err endless

parts_bits-Ends :
    (lo hi : ℕ) (parts : List Text) (bits : List ℕ)
    → lo < int_limit
    → hi < 64
    → Ends (parts_bits lo hi parts bits)
unfolding parts_bits
parts_bits-Ends lo hi [] bits hl hb = λ k. cc
parts_bits-Ends lo hi (part ∷ parts) bits hl hb =
    let bounded = part_span-Bounded lo hi part hl in
    elim (result-cases (part_span lo hi part)) [
      | inr (e, k) ↦
          let honest : e ≢ endless = subst (Bounded lo hi) k bounded in
          subst (λ r. Ends ((r >>= span_bits bits) >>= parts_bits lo hi parts)) (sym k)
            (λ same. honest cc)
      | inl (s, k) ↦
          let (r, m) = span_bits-ends lo hi bits s hb (subst (Bounded lo hi) k bounded) in
          subst (λ r. Ends ((r >>= span_bits bits) >>= parts_bits lo hi parts)) (sym k)
            (subst (λ r. Ends (r >>= parts_bits lo hi parts)) (sym m)
              (parts_bits-Ends lo hi parts r hl hb))
    ]

-- Whatever the text of a field, its steps included, the loops of cronField end within 128 rounds
-- each, where the field's bounds are below 64.
pub cron_field-ends :
    (s : Text) (lo hi : ℕ) → lo < int_limit → hi < 64 → cron_field s lo hi ≢ err endless
unfolding cron_field
cron_field-ends s lo hi hl hb = parts_bits-Ends lo hi (split b',' s) [] hl hb

-- A part of a field and a value on the grid that it stands for.
pub record Covers (lo hi : ℕ) (parts : List Text) (w : ℕ) : Type 0 where
  pub part : Text
  pub listed : In part parts
  pub span : Span
  pub spans : part_span lo hi part ≡ ok span
  pub grid : OnGrid (word span.first) (word span.last) span.step w

-- Steps so far from the largest int that no sum overflows.
abbrev pub SmallSteps : ℕ → ℕ → List Text → Type 0
SmallSteps lo hi parts =
    All (λ part. (s : Span) → part_span lo hi part ≡ ok s → s.step + 64 ≤ 2 ^ 63) parts

span_bits-Sets :
    (lo hi : ℕ) (bits : List ℕ) (s : Span)
    → hi < 64
    → IsInside lo hi s
    → s.step + 64 ≤ 2 ^ 63
    → (r : List ℕ) × (span_bits bits s ≡ ok r) × Sets bits (word s.first) (word s.last) s.step r
unfolding span_bits
span_bits-Sets lo hi bits s hb i small =
    let first : word s.first ≡ i.from = ap word i.first_is in
    let last : word s.last ≡ i.to = ap word i.last_is in
    let (r, e, sets) =
      step_bits-Sets round_limit (word s.first) (word s.last) s.step bits
        (omega (arith, i.below, last)) i.moves small (omega (arith, first, i.int)) (omega arith)
        (omega (arith, last, i.below)) in
    (r, ap ended e, sets)

parts_bits-Covers :
    (lo hi : ℕ) (parts : List Text) (bits out : List ℕ)
    → lo < int_limit
    → hi < 64
    → SmallSteps lo hi parts
    → parts_bits lo hi parts bits ≡ ok out
    → (w : ℕ) → (has_bit out w ≡ true) ↔ ((has_bit bits w ≡ true) ⊎ Covers lo hi parts w)
unfolding parts_bits
parts_bits-Covers lo hi [] bits out hl hb small h w =
    let same : bits ≡ out = ok-injective h in
    (λ m. inl (rw same m), λ c. elim c [ inl m ↦ rw (← same) m | inr c ↦ absurd c.listed ])
parts_bits-Covers lo hi (part ∷ parts) bits out hl hb (small, smalls) h w =
    elim (result-cases (part_span lo hi part)) [
      | inr (e, k) ↦ cc (sym h ∙ ap (λ r. (r >>= span_bits bits) >>= parts_bits lo hi parts) k)
      | inl (s, k) ↦
          let i : IsInside lo hi s = subst (Bounded lo hi) k (part_span-Bounded lo hi part hl) in
          let (r, m, sets) = span_bits-Sets lo hi bits s hb i (small s k) in
          let rest : parts_bits lo hi parts r ≡ ok out =
            sym (
              ap (λ r. (r >>= span_bits bits) >>= parts_bits lo hi parts) k
              ∙ ap (λ r. r >>= parts_bits lo hi parts) m)
            ∙ h in
          let (to, from) = parts_bits-Covers lo hi parts r out hl hb smalls rest w in
          (
            λ b. elim (to b) [
              | inr c ↦ inr (record {
                part = c.part;
                listed = inr c.listed;
                span = c.span;
                spans = c.spans;
                grid = c.grid;
              })
              | inl b' ↦ elim ((sets w).0 b') [
                | inl b0 ↦ inl b0
                | inr g ↦
                    inr (record { part = part; listed = inl refl; span = s; spans = k; grid = g })
              ]
            ],
            λ c. elim c [
              | inl b0 ↦ from (inl ((sets w).1 (inl b0)))
              | inr c ↦ elim c.listed [
                | inr later ↦ from (
                    inr (record {
                      part = c.part;
                      listed = later;
                      span = c.span;
                      spans = c.spans;
                      grid = c.grid;
                    }))
                | inl here ↦
                    let same : c.span ≡ s =
                      ok-injective (sym c.spans ∙ ap (part_span lo hi) (sym here) ∙ k) in
                    from (
                      inl (
                        (sets w).1 (
                          inr (
                            subst (λ z. OnGrid (word z.first) (word z.last) z.step w) same
                              c.grid))))
              ]
            ],
          )
    ]

-- Where the steps of an accepted field are at most 2^63 - 64, its flags are exactly the values
-- that a part of it reaches from its first value in whole steps and up to its last.
pub cron_field-Covers :
    (s : Text) (lo hi : ℕ) (bits : List ℕ)
    → lo < int_limit
    → hi < 64
    → SmallSteps lo hi (split b',' s)
    → cron_field s lo hi ≡ ok bits
    → (w : ℕ) → (has_bit bits w ≡ true) ↔ Covers lo hi (split b',' s) w
unfolding cron_field
cron_field-Covers s lo hi bits hl hb small h w =
    let (to, from) = parts_bits-Covers lo hi (split b',' s) [] bits hl hb small h w in
    (λ m. elim (to m) [ inl none_set ↦ cc | inr c ↦ c ], λ c. from (inr c))
