-- ===== src/Tools/Capped/Kept.antt =====
-- The bytes that the capped buffer has after any sequence of writes.
use be_code_redux.Base.{
  ℕ, ◌+◌, ◌-◌, ◌≤◌, ◌<◌, min, List, [], ◌∷◌, ◌++◌, false, nat_keyed, ltb, leb, ltb→lt, length, take,
  drop, ◌≡◌, refl, sym, ap, ◌∙◌, subst, arith, length-append, length-take, length-drop,
  take-append-drop, append-nil, append_assoc, Bool-cases, inl, inr, ◌⊎◌,
}
use be_code_redux.Tools.Capped.{Shares, CappedBuffer, new_buffer, fill_head, write, write_all}
use be_code_redux.Tools.Capped.Loop.{IsRing, fill_tail-IsRing, head-fill_tail, wrapped-fill_tail}

pub concat : List (List ℕ) → List ℕ
concat [] = []
concat (p ∷ ps) = p ++ concat ps

-- The buffer after the bytes `front` in its head and the bytes `rest` after it.
pub record IsHolding (s : Shares) (b : CappedBuffer) (front rest : List ℕ) : Type 0 where
  pub of_head : b.head ≡ front
  pub short : length front ≤ s.head_share
  pub full : (rest ≡ []) ⊎ (length front ≡ s.head_share)
  pub ring : IsRing s b rest

-- A step of Write's first part from `b` to `b'`, with `left` still to store.
record Filled (s : Shares) (b' : CappedBuffer) (left front rest p : List ℕ) : Type 0 where
  front' : List ℕ
  holds : IsHolding s b' front' rest
  all_there : front' ++ (rest ++ left) ≡ front ++ (rest ++ p)
  calm : b'.dropped ≡ 0 → b'.wrapped ≡ false
  no_gap : (left ≡ []) ⊎ (length front' ≡ s.head_share)

module _ (s : Shares) where
  taken_all :
      (front p : List ℕ) (room : ℕ)
      → s.head_share ≡ length front + room
      → (drop (min room (length p)) p ≡ [])
        ⊎ (length (front ++ take (min room (length p)) p) ≡ s.head_share)
  taken_all front p room e =
      let n = min room (length p) in
      elim (Bool-cases (leb (length p) room)) [
        | inl c ↦ inl (nothing (drop n p) (ground (arith, length-drop n p)))
        | inr c ↦ inr (ground (arith, length-append front (take n p), length-take n p))
      ]
    where
      nothing : (l : List ℕ) → length l ≡ 0 → l ≡ []
      nothing [] h = refl
      nothing (x ∷ l) h = absurd (omega arith)

  -- The head had room, so nothing was behind it.
  nothing_behind :
      (front rest : List ℕ)
      → length front < s.head_share
      → (rest ≡ []) ⊎ (length front ≡ s.head_share)
      → rest ≡ []
  nothing_behind front rest h (inl e) = e
  nothing_behind front rest h (inr e) = absurd (omega arith)

  fill_head-Filled :
      (b : CappedBuffer) (front rest p : List ℕ)
      → IsHolding s b front rest
      → (b.dropped ≡ 0 → b.wrapped ≡ false)
      → Filled s (fill_head s b p).0 (fill_head s b p).1 front rest p
  fill_head-Filled b front rest p h calm =
      let room = s.head_share - length b.head in
      let n = min room (length p) in
      let q = take n p in
      let d = drop n p in
      let size : length b.head ≡ length front = ap length h.of_head in
      elim (Bool-cases (ltb (length b.head) s.head_share)) [
        | inl e ↦
            let lt : length b.head < s.head_share = ltb→lt (length b.head) s.head_share e in
            let none : rest ≡ [] = nothing_behind front rest (omega arith) h.full in
            rw e (record {
              front' = front ++ q;
              holds = record {
                of_head = ap (λ l. l ++ q) h.of_head;
                short = omega (arith, length-append front q, length-take n p);
                full = inl none;
                ring = record {
                  last_bytes = h.ring.last_bytes;
                  counted = h.ring.counted;
                  size = h.ring.size;
                  inside = h.ring.inside;
                  unmoved = h.ring.unmoved;
                };
              };
              all_there =
                  subst (λ r. (front ++ q) ++ (r ++ d) ≡ front ++ (r ++ p)) (sym none)
                    (append_assoc front q d ∙ ap (λ l. front ++ l) (take-append-drop n p));
              calm = calm;
              no_gap = taken_all front p room (omega arith);
            })
        | inr e ↦ rw e (record {
          front' = front;
          holds = h;
          all_there = refl;
          calm = calm;
          no_gap = inr (ground (arith, h.short));
        })
      ]

  -- Write stores or counts each byte.
  pub record Written (b' : CappedBuffer) (seen : List ℕ) : Type 0 where
    pub front : List ℕ
    pub rest : List ℕ
    pub holds : IsHolding s b' front rest
    pub calm : b'.dropped ≡ 0 → b'.wrapped ≡ false
    pub all_there : front ++ rest ≡ seen

  write-Written :
      (b : CappedBuffer) (seen p : List ℕ) → Written b seen → Written (write s b p).0 (seen ++ p)
  unfolding write
  write-Written b seen p w =
      let k = fill_head-Filled b w.front w.rest p w.holds w.calm in
      let b' = (fill_head s b p).0 in
      let left = (fill_head s b p).1 in
      record {
        front = k.front';
        rest = w.rest ++ left;
        holds = record {
          of_head = head-fill_tail s (length left) b' left ∙ k.holds.of_head;
          short = k.holds.short;
          full = still_full k.front' w.rest left k.holds.full k.no_gap;
          ring = fill_tail-IsRing s (length left) b' w.rest left k.holds.ring (omega arith);
        };
        calm = wrapped-fill_tail s (length left) b' left k.calm;
        all_there =
            k.all_there ∙ sym (append_assoc w.front w.rest p) ∙ ap (λ l. l ++ p) w.all_there;
      }
    where
      still_full :
          (f rest left : List ℕ)
          → (rest ≡ []) ⊎ (length f ≡ s.head_share)
          → (left ≡ []) ⊎ (length f ≡ s.head_share)
          → (rest ++ left ≡ []) ⊎ (length f ≡ s.head_share)
      still_full f rest left (inr e) k = inr e
      still_full f rest left (inl e) (inr k) = inr k
      still_full f rest left (inl e) (inl k) = inl (ap (λ l. l ++ left) e ∙ k)

  pub write_all-Written :
      (b : CappedBuffer) (seen : List ℕ) (ps : List (List ℕ))
      → Written b seen
      → Written (write_all s b ps) (seen ++ concat ps)
  unfolding write_all concat
  write_all-Written b seen [] w = rw (append-nil seen) w
  write_all-Written b seen (p ∷ ps) w =
      subst (Written (write_all s (write s b p).0 ps)) (append_assoc seen p (concat ps))
        (write_all-Written (write s b p).0 (seen ++ p) ps (write-Written b seen p w))

  empty : (n : ℕ) → 0 ≡ 0 - n
  empty n = omega arith

  pub new-Written : 0 < s.tail_cap → Written new_buffer []
  new-Written h = record {
    front = [];
    rest = [];
    holds = record {
      of_head = refl;
      short = omega arith;
      full = inl refl;
      ring = record {
        last_bytes = ap (λ n. drop n []) (empty s.tail_cap);
        counted = omega arith;
        size = omega arith;
        inside = h;
        unmoved = λ e. refl;
      };
    };
    calm = λ e. refl;
    all_there = refl;
  }
