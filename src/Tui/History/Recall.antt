-- ===== src/Tui/History/Recall.antt =====
-- How a terminal walks the shared lines.
use be_code_redux.Base.{
  ℕ, zero, suc, ◌+◌, ◌-◌, ◌≤◌, ◌<◌, List, [], ◌∷◌, ◌++◌, true, false, not, ◌&&◌, ◌||◌, Text,
  text_keyed, nat_keyed, ◌==◌, if◌then◌else◌, ltb, leb, some, lookup, get_elem?, length, drop, ◌≡◌,
  ◌≢◌, refl, sym, ap, ◌∙◌, arith, Bool-cases, inl, inr, ◌⊎◌, lookup-insert, lookup-erase,
  length-append, length-drop, beq_self, eq_of_beq,
}
use be_code_redux.Tui.History.{
  InputHistory, cursor, set_cursor, live, stored, last_is, add, prev, next, line, nothing, line_at,
  history_limit,
}

cursor-le : (h : InputHistory) (c : ℕ) → cursor h c ≤ length h.lines
unfolding cursor
cursor-le h c = ground arith

cursor-set_cursor :
    (h : InputHistory) (c k pos : ℕ)
    → pos ≤ length h.lines
    → cursor (set_cursor h c pos) k ≡ (if c == k then pos else cursor h k)
unfolding cursor
cursor-set_cursor h c k pos le = rw (lookup-insert c k pos h.cursors, cursor) (ground arith)

cursor-live :
    (h : InputHistory) (c k : ℕ)
    → cursor (live h c) k ≡ (if c == k then length h.lines else cursor h k)
unfolding cursor
cursor-live h c k = rw (lookup-erase c k h.cursors, cursor) (ground arith)

get_elem?-some : (l : List Text) (i : ℕ) → i < length l → (x : Text) × (get_elem? l i ≡ some x)
get_elem?-some [] i h = absurd (omega arith)
get_elem?-some (x ∷ l) zero h = (x, refl)
get_elem?-some (x ∷ l) (suc i) h = get_elem?-some l i (omega arith)

-- Where Down takes a client that is not at the end.
cursor-next :
    (h : InputHistory) (c k : ℕ)
    → cursor h c < length h.lines
    → cursor (next h c).0 k ≡ (if c == k then cursor h c + 1 else cursor h k)
unfolding next
cursor-next h c k lt =
    let inside : leb (length h.lines) (cursor h c) ≡ false = ground arith in
    rw inside (elim (Bool-cases (cursor h c + 1 == length h.lines)) [
      | inl e ↦
          rw e (cursor-live h c k ∙ ap (λ n. if c == k then n else cursor h k) (sym (eq_of_beq e)))
      | inr e ↦ rw e (cursor-set_cursor h c k (cursor h c + 1) (omega arith))
    ])

-- Up from a place that is not the first.
prev_lem :
    (h : InputHistory) (c : ℕ) (l : Text)
    → ((cursor h c == 0) || (length h.lines == 0)) ≡ false
    → get_elem? h.lines (cursor h c - 1) ≡ some l
    → prev h c ≡ (set_cursor h c (cursor h c - 1), line l)
unfolding prev
prev_lem h c l e g = rw e (rw (g, line_at) refl)

-- Up moves a terminal to the line before its place and shows it, and does nothing at the first
-- line; Down then brings it back; and another
-- terminal stays where it is.
pub prev-next :
    (h : InputHistory) (client other : ℕ)
    → client ≢ other
    → ((cursor h client ≡ 0) × (prev h client ≡ (h, nothing)))
      ⊎ ((l : Text) × ((prev h client).1 ≡ line l)
          × (get_elem? h.lines (cursor h client - 1) ≡ some l)
          × (cursor (prev h client).0 client + 1 ≡ cursor h client)
          × (cursor (next (prev h client).0 client).0 client ≡ cursor h client)
          × (cursor (prev h client).0 other ≡ cursor h other)
          × (cursor (next (prev h client).0 client).0 other ≡ cursor h other))
unfolding prev
prev-next h client other n = elim (Bool-cases ((cursor h client == 0) || (length h.lines == 0))) [
  | inl e ↦ inl (at_first (cursor-le h client) e, rw e refl)
  | inr e ↦
      let here = cursor h client in
      let h1 = set_cursor h client (here - 1) in
      let later : 0 < here = ground arith in
      let (l, g) = get_elem?-some h.lines (here - 1) (omega (arith, cursor-le h client)) in
      let p : prev h client ≡ (h1, line l) = prev_lem h client l e g in
      let place : cursor h1 client ≡ here - 1 =
        cursor-set_cursor h client client (here - 1) (omega (arith, cursor-le h client))
        ∙ at_itself (here - 1) (cursor h client) in
      let inside : cursor h1 client < length h.lines = omega (arith, cursor-le h client) in
      let away : cursor h1 other ≡ cursor h other =
        cursor-set_cursor h client other (here - 1) (omega (arith, cursor-le h client))
        ∙ elsewhere (here - 1) (cursor h other) in
      rw p (
        inr (
          l,
          refl,
          g,
          omega (arith, place),
          cursor-next h1 client client inside
              ∙ at_itself (cursor h1 client + 1) (cursor h1 client)
              ∙ omega (arith, place),
          away,
          cursor-next h1 client other inside
              ∙ elsewhere (cursor h1 client + 1) (cursor h1 other)
              ∙ away,
        ))
]
  where
    at_itself : (m n : ℕ) → (if client == client then m else n) ≡ m
    at_itself m n = rw (beq_self client) refl

    elsewhere : (m k : ℕ) → (if client == other then m else k) ≡ k
    elsewhere m k = ground arith

    at_first : {p n : ℕ} → p ≤ n → ((p == 0) || (n == 0)) ≡ true → p ≡ 0
    at_first h e = ground arith

get_elem?-append : (l m : List Text) (i : ℕ) → i < length l → get_elem? (l ++ m) i ≡ get_elem? l i
get_elem?-append [] m i h = absurd (omega arith)
get_elem?-append (x ∷ l) m zero h = refl
get_elem?-append (x ∷ l) m (suc i) h = get_elem?-append l m i (omega arith)

length-stored :
    (h : InputHistory) (l : Text)
    → length h.lines ≤ history_limit
    → length (stored h l).lines ≤ history_limit
unfolding stored
length-stored h l le =
    let grown = h.lines ++ l ∷ [] in
    let size : length grown ≡ length h.lines + 1 = length-append h.lines (l ∷ []) in
    let size' : length (drop (length grown - history_limit) grown)
        ≡ length grown - (length grown - history_limit) =
      length-drop (length grown - history_limit) grown in
    ground (arith, size, size')

-- A line that is stored without a trim.
record Untrimmed (h h' : InputHistory) : Type 0 where
  same_cursors : h'.cursors ≡ h.cursors
  lines_there : (pos : ℕ) → pos < length h.lines → get_elem? h'.lines pos ≡ get_elem? h.lines pos
  grew : length h.lines ≤ length h'.lines

stored-Untrimmed :
    (h : InputHistory) (l : Text) → length h.lines < history_limit → Untrimmed h (stored h l)
unfolding stored
stored-Untrimmed h l lt =
    let size : length (h.lines ++ l ∷ []) ≡ length h.lines + 1 = length-append h.lines (l ∷ []) in
    let short : ltb history_limit (length (h.lines ++ l ∷ [])) ≡ false = ground arith in
    rw short
      (elim (Bool-cases (not (l == []) && not (ltb 0 (length h.lines) && last_is h.lines l))) [
        | inl e ↦ rw e (record {
          same_cursors = refl;
          lines_there = λ pos lp. get_elem?-append h.lines (l ∷ []) pos lp;
          grew = omega arith;
        })
        | inr e ↦
            rw e (record { same_cursors = refl; lines_there = λ pos lp. refl; grew = omega arith })
      ])

-- A line submitted to at most 2,000 lines leaves at most 2,000, and its client at their end.
pub add-bounds :
    (h : InputHistory) (l : Text) (client : ℕ)
    → length h.lines ≤ history_limit
    → (length (add h l client).lines ≤ history_limit)
      × (cursor (add h l client) client ≡ length (add h l client).lines)
unfolding add
add-bounds h l client le =
    (length-stored h l le, cursor-live (stored h l) client client ∙ rw (beq_self client) refl)

cursor-navigating :
    (h : InputHistory) (c pos : ℕ)
    → lookup c h.cursors ≡ some pos
    → pos < length h.lines
    → cursor h c ≡ pos
unfolding cursor
cursor-navigating h c pos at inside = rw (at, cursor) (ground arith)

-- While the lines are fewer than 2,000, a line submitted by one terminal leaves another that is
-- walking them at its place, with the same line there.
pub add-other :
    (h : InputHistory) (l : Text) (client other pos : ℕ)
    → length h.lines < history_limit
    → client ≢ other
    → lookup other h.cursors ≡ some pos
    → pos < length h.lines
    → (cursor (add h l client) other ≡ pos)
      × (get_elem? (add h l client).lines pos ≡ get_elem? h.lines pos)
unfolding add
add-other h l client other pos lt ne at inside =
    let u = stored-Untrimmed h l lt in
    let same : lookup other (stored h l).cursors ≡ some pos =
      ap (lookup other) u.same_cursors ∙ at in
    (
      cursor-live (stored h l) client other
          ∙ elsewhere (length (stored h l).lines) (cursor (stored h l) other)
          ∙ cursor-navigating (stored h l) other pos same (omega (arith, u.grew)),
      u.lines_there pos inside,
    )
  where
    elsewhere : (m k : ℕ) → (if client == other then m else k) ≡ k
    elsewhere m k = ground arith
