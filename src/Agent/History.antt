-- ===== src/Agent/History.antt =====
-- internal/agent/history.go: the conversation and its token budget. A text is its bytes. The
-- estimate of a text's tokens, the fraction of the room that compression aims for (both computed
-- in floating point), the shortening of a call's JSON arguments and fmt's %.120s are parameters.
mod Pairing
mod Dropping
mod Fitting
mod Tests
use be_code_redux.Base.{
  ℕ, zero, suc, ◌+◌, ◌-◌, ◌/◌, List, [], ◌∷◌, ◌++◌, Bool, true, false, not, ◌&&◌, ◌||◌, Text, codes,
  text_keyed, nat_keyed, ◌==◌, if◌then◌else◌, ltb, leb, has_prefix, Option, none, some, length, any,
  map, total,
}

-- provider.Role
pub data Role : Type 0 where
  system user assistant tool : Role

-- provider.ToolCall
pub record ToolCall : Type 0 where
  pub id : Text
  pub name : Text
  pub arguments : Text

-- provider.Message
pub record Message : Type 0 where
  pub role : Role
  pub content : Text
  pub calls : List ToolCall
  pub call_id : Text
  pub name : Text

pub record History : Type 0 where
  pub prompt : Message
  pub messages : List Message
  pub budget : ℕ
  pub extra : ℕ
  pub reserve : ℕ

abbrev pub is_user : Role → Bool
is_user user = true
is_user system = false
is_user assistant = false
is_user tool = false

abbrev pub is_tool : Role → Bool
is_tool tool = true
is_tool system = false
is_tool user = false
is_tool assistant = false

abbrev pub is_assistant : Role → Bool
is_assistant assistant = true
is_assistant system = false
is_assistant user = false
is_assistant tool = false

abbrev plain : Role → Text → Message
plain role content = record { role = role; content = content; calls = []; call_id = []; name = [] }

-- NewHistory, with no budget for one at or below 0
unfoldable pub new_history : Text → ℕ → History
new_history content budget = record {
  prompt = plain system content;
  messages = [];
  budget = if budget == 0 then 16384 else budget;
  extra = 0;
  reserve = 0;
}

-- Add
abbrev pub add : History → Message → History
add h m = record h { messages = h.messages ++ m ∷ [] }

-- Limit
abbrev pub limit : History → ℕ
limit h = let l = h.budget - h.reserve in if ltb l 512 then 512 else l

-- collapsedStub
abbrev pub collapsed_stub : Text
collapsed_stub = codes "[old tool result removed to save context]"

-- isToolResult
abbrev pub is_tool_result : Message → Bool
is_tool_result m = is_tool m.role || (is_user m.role && has_prefix m.content (codes "<tool_result"))

abbrev pub with_messages : History → List Message → History
with_messages h ms = record h { messages = ms }

-- Where the first user message stands.
unfoldable pub first_user : List Message → Option ℕ
first_user [] = none
first_user (m ∷ ms) =
    let later = first_user ms in
    if is_user m.role then some 0 else elim later [ none ↦ none | some i ↦ some (suc i) ]

abbrev pub behind : Option ℕ → ℕ
behind none = 0
behind (some i) = suc i

-- The message behind the first user message, or the first one.
unfoldable pub drop_index : List Message → ℕ
unfolding first_user
drop_index ms = behind (first_user ms)

-- The marker on what has come up to the place of a dropped message.
abbrev pub marked : Message → Message
marked m =
    if is_tool_result m && not (m.content == collapsed_stub)
    then record m { content = collapsed_stub }
    else m

abbrev mark_first : List Message → List Message
mark_first [] = []
mark_first (m ∷ ms) = marked m ∷ ms

-- The message at a place goes.
unfoldable pub drop_at : ℕ → List Message → List Message
drop_at i [] = []
drop_at zero (m ∷ ms) = mark_first ms
drop_at (suc i) (m ∷ ms) = m ∷ drop_at i ms

-- The ids of the calls in an assistant's message.
abbrev pub call_ids : Message → List Text
call_ids m = if is_assistant m.role then map (λ c. c.id) m.calls else []

-- hasMatchingCall, for the ids of the calls before.
abbrev pub has_call : List Text → Text → Bool
has_call seen id = any (λ s. s == id) seen

module _ (est : Text → ℕ) (part : ℕ → ℕ) (shrink_args : Text → Text) (clip : Text → Text) where
  abbrev call_tokens : ToolCall → ℕ
  call_tokens c = est c.name + est c.arguments

  -- MessageTokens
  abbrev pub message_tokens : Message → ℕ
  message_tokens m = est m.content + 4 + total call_tokens m.calls

  -- Tokens
  abbrev pub tokens : History → ℕ
  tokens h = message_tokens h.prompt + h.extra + total message_tokens h.messages

  -- Floor
  abbrev pub floor : History → ℕ
  floor h = message_tokens h.prompt + h.extra

  -- Target
  abbrev pub target : History → ℕ
  target h = if leb (limit h) (floor h) then limit h else floor h + part (limit h - floor h)

  -- Over
  abbrev pub over : History → Bool
  over h = ltb (limit h) (tokens h)

  -- collapseSlack
  abbrev pub collapse_slack : History → ℕ
  collapse_slack h = (limit h - floor h) / 10

  abbrev pub shrink_call : ToolCall → ToolCall
  shrink_call c =
      if leb (length c.arguments) 512 then c else record c { arguments = shrink_args c.arguments }

  abbrev pub stubbed : Message → Message
  stubbed m =
      if is_tool_result m && ltb (length collapsed_stub) (length m.content)
      then record m { content = collapsed_stub }
      else m

  -- One message in the loop of CollapseOldToolResults; the calls are shrunk by shrinkToolCallArgs.
  abbrev pub collapsed : Message → Message
  collapsed m = let s = stubbed m in record s { calls = map shrink_call s.calls }

  -- The inner loop over `count` messages, which stops at the target.
  unfoldable pub collapse_pass : History → ℕ → List Message → List Message → List Message × Bool
  collapse_pass h zero before ms = (before ++ ms, false)
  collapse_pass h (suc count) before [] = (before ++ [], false)
  collapse_pass h (suc count) before (m ∷ ms) =
      let now = before ++ collapsed m ∷ ms in
      elim (leb (tokens (with_messages h now)) (target h)) [
        | true ↦ (now, true)
        | false ↦ collapse_pass h count (before ++ collapsed m ∷ []) ms
      ]

  abbrev pub keeping : History → ℕ → List Message → List Message × Bool
  keeping h keep ms = collapse_pass h (length ms - keep) [] ms

  abbrev pub near_target : History → List Message × Bool → List Message × Bool
  near_target h (ms, true) = (ms, true)
  near_target h (ms, false) = (ms, leb (tokens (with_messages h ms)) (target h + collapse_slack h))

  unfoldable pub second_pass : History → List Message × Bool → List Message × Bool
  unfolding collapse_pass
  second_pass h (ms, true) = (ms, true)
  second_pass h (ms, false) = near_target h (keeping h 1 ms)

  -- CollapseOldToolResults
  unfoldable pub collapse_old : History → List Message × Bool
  unfolding collapse_pass second_pass
  collapse_old h = second_pass h (keeping h 8 h.messages)

  -- The loop of trim's second pass. A round takes a message, so their number is fuel enough.
  unfoldable pub drop_old : History → ℕ → List Message → List Message
  unfolding drop_index drop_at
  drop_old h zero ms = ms
  drop_old h (suc fuel) ms =
      elim (over (with_messages h ms) && ltb 6 (length ms) && ltb (drop_index ms + 4) (length ms)) [
        | true ↦ drop_old h fuel (drop_at (drop_index ms) ms)
        | false ↦ ms
      ]

  -- What an orphan becomes.
  abbrev pub context_note : Message → Message
  context_note m =
      plain user
        (codes "[context note: earlier tool result elided: " ++ (clip m.content ++ codes "]"))

  abbrev pub repaired : List Text → Message → Message
  repaired seen m = if is_tool m.role && not (has_call seen m.call_id) then context_note m else m

  unfoldable pub repair_from : List Text → List Message → List Message
  repair_from seen [] = []
  repair_from seen (m ∷ ms) = repaired seen m ∷ repair_from (call_ids (repaired seen m) ++ seen) ms

  -- RepairOrphans
  unfoldable pub repair_orphans : List Message → List Message
  unfolding repair_from
  repair_orphans ms = repair_from [] ms

  unfoldable pub finished : History → List Message × Bool → List Message
  unfolding drop_old repair_orphans
  finished h (ms, true) = ms
  finished h (ms, false) = repair_orphans (drop_old h (length ms) ms)

  -- trim
  unfoldable pub trim : History → List Message
  unfolding collapse_old finished
  trim h = if over h then finished h (collapse_old h) else h.messages

  -- Prompt
  unfoldable pub prompt_messages : History → List Message
  unfolding trim
  prompt_messages h = h.prompt ∷ trim h
