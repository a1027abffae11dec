-- ===== src/Agent/History/Pairing.antt =====
-- Each tool result has the call that it answers before it.
use be_code_redux.Base.{
  ℕ, zero, suc, ◌-◌, List, [], ◌∷◌, ◌++◌, Bool, true, false, not, ◌&&◌, Text, text_keyed, nat_keyed,
  if◌then◌else◌, ltb, leb, length, map, ◌≡◌, refl, sym, ap, subst, ◌∙◌, Bool-cases, inl, inr, arith,
  append_assoc,
}
use be_code_redux.Agent.History.{
  ToolCall, Message, History, is_tool, is_assistant, is_tool_result, collapsed_stub, call_ids,
  has_call, over, tokens, target, with_messages, stubbed, collapsed, shrink_call, collapse_pass,
  keeping, near_target, second_pass, collapse_old, drop_old, repaired, repair_from, repair_orphans,
  finished, trim,
}

-- The ids of the calls before are `seen`.
abbrev pub Paired : List Text → List Message → Type 0
Paired seen [] = Unit
Paired seen (m ∷ ms) =
    (is_tool m.role ≡ true → has_call seen m.call_id ≡ true) × Paired (call_ids m ++ seen) ms

module _ (est : Text → ℕ) (part : ℕ → ℕ) (shrink_args : Text → Text) (clip : Text → Text) where
  repaired-answers :
      (seen : List Text) (m : Message)
      → is_tool (repaired est part shrink_args clip seen m).role ≡ true
      → has_call seen (repaired est part shrink_args clip seen m).call_id ≡ true
  repaired-answers seen m = elim (Bool-cases (is_tool m.role && not (has_call seen m.call_id))) [
    | inl e ↦ rw e (λ h. cc)
    | inr e ↦ rw e (λ h. ground arith)
  ]

  repair_from-Paired :
      (seen : List Text) (ms : List Message)
      → Paired seen (repair_from est part shrink_args clip seen ms)
  unfolding repair_from
  repair_from-Paired seen [] = tt
  repair_from-Paired seen (m ∷ ms) = (
    repaired-answers seen m,
    repair_from-Paired (call_ids (repaired est part shrink_args clip seen m) ++ seen) ms,
  )

  -- Compression keeps roles and ids.
  stubbed-keeps :
      (m : Message)
      → ((stubbed est part shrink_args clip m).role ≡ m.role)
        × ((stubbed est part shrink_args clip m).call_id ≡ m.call_id)
        × ((stubbed est part shrink_args clip m).calls ≡ m.calls)
  stubbed-keeps m =
      elim (Bool-cases (is_tool_result m && ltb (length collapsed_stub) (length m.content))) [
        | inl e ↦ rw e (refl, refl, refl)
        | inr e ↦ rw e (refl, refl, refl)
      ]

  shrink_call-id : (c : ToolCall) → (shrink_call est part shrink_args clip c).id ≡ c.id
  shrink_call-id c = elim (Bool-cases (leb (length c.arguments) 512)) [
    | inl e ↦ rw e refl
    | inr e ↦ rw e refl
  ]

  map-shrink_call :
      (cs : List ToolCall)
      → map (λ c. c.id) (map (shrink_call est part shrink_args clip) cs) ≡ map (λ c. c.id) cs
  map-shrink_call [] = refl
  map-shrink_call (c ∷ cs) = rw (shrink_call-id c) (ap (λ l. c.id ∷ l) (map-shrink_call cs))

  call_ids-collapsed : (m : Message) → call_ids (collapsed est part shrink_args clip m) ≡ call_ids m
  call_ids-collapsed m =
      let (r, i, c) = stubbed-keeps m in
      let ids = map-shrink_call (stubbed est part shrink_args clip m).calls in
      ap (λ l. if is_assistant (stubbed est part shrink_args clip m).role then l else [])
        (ids ∙ ap (map (λ c. c.id)) c)
      ∙ ap (λ q. if is_assistant q then map (λ c. c.id) m.calls else []) r

  -- A collapsed message in front stands for the message itself.
  Paired-collapsed :
      (seen : List Text) (m : Message) (ms : List Message)
      → Paired seen (m ∷ ms)
      → Paired seen (collapsed est part shrink_args clip m ∷ ms)
  Paired-collapsed seen m ms (h, p) =
      let (r, i, c) = stubbed-keeps m in
      (
        λ t. subst (λ id. has_call seen id ≡ true) (sym i) (h (ap is_tool (sym r) ∙ t)),
        subst (λ ids. Paired (ids ++ seen) ms) (sym (call_ids-collapsed m)) p,
      )

  -- So it does behind other messages.
  Paired-within :
      (seen : List Text) (before : List Message) (m : Message) (ms : List Message)
      → Paired seen (before ++ m ∷ ms)
      → Paired seen (before ++ collapsed est part shrink_args clip m ∷ ms)
  Paired-within seen [] m ms p = Paired-collapsed seen m ms p
  Paired-within seen (b ∷ before) m ms (h, p) =
      (h, Paired-within (call_ids b ++ seen) before m ms p)

  collapse_pass-Paired :
      (h : History) (count : ℕ) (before ms : List Message)
      → Paired [] (before ++ ms)
      → Paired [] (collapse_pass est part shrink_args clip h count before ms).0
  unfolding collapse_pass
  collapse_pass-Paired h zero before ms p = p
  collapse_pass-Paired h (suc count) before [] p = p
  collapse_pass-Paired h (suc count) before (m ∷ ms) p =
      let now = before ++ collapsed est part shrink_args clip m ∷ ms in
      let paired : Paired [] now = Paired-within [] before m ms p in
      elim (Bool-cases (
        leb (tokens est part shrink_args clip (with_messages h now))
          (target est part shrink_args clip h))) [
            | inl e ↦ rw (e, collapse_pass) paired
            | inr e ↦
                rw (e, collapse_pass)
                  (collapse_pass-Paired h count
                    (before ++ collapsed est part shrink_args clip m ∷ []) ms
                    (subst (Paired [])
                      (sym (append_assoc before (collapsed est part shrink_args clip m ∷ []) ms))
                      paired))
          ]

  second_pass-Paired :
      (h : History) (r : List Message × Bool)
      → Paired [] r.0
      → Paired [] (second_pass est part shrink_args clip h r).0
  unfolding second_pass
  second_pass-Paired h (ms, true) p = p
  second_pass-Paired h (ms, false) p =
      near (keeping est part shrink_args clip h 1 ms)
        (collapse_pass-Paired h (length ms - 1) [] ms p)
    where
      near :
          (r : List Message × Bool)
          → Paired [] r.0
          → Paired [] (near_target est part shrink_args clip h r).0
      near (ms, true) p = p
      near (ms, false) p = p

  finished-Paired :
      (h : History) (r : List Message × Bool)
      → Paired [] r.0
      → Paired [] (finished est part shrink_args clip h r)
  unfolding finished repair_orphans
  finished-Paired h (ms, true) p = p
  finished-Paired h (ms, false) p =
      repair_from-Paired [] (drop_old est part shrink_args clip h (length ms) ms)

-- Where each tool result of a history follows the call that it answers, this holds of the
-- messages that trim leaves as well.
pub trim-Paired :
    (est : Text → ℕ) (part : ℕ → ℕ) (shrink_args clip : Text → Text) (h : History)
    → Paired [] h.messages
    → Paired [] (trim est part shrink_args clip h)
unfolding trim collapse_old
trim-Paired est part shrink_args clip h p = elim (Bool-cases (over est part shrink_args clip h)) [
  | inr e ↦ rw e p
  | inl e ↦ rw e (
      finished-Paired est part shrink_args clip h (collapse_old est part shrink_args clip h) (
        second_pass-Paired est part shrink_args clip h
          (keeping est part shrink_args clip h 8 h.messages)
          (collapse_pass-Paired est part shrink_args clip h (length h.messages - 8) [] h.messages
            p)))
]
