-- ===== src/Checkpoint/Views.antt =====
-- ChangedLast, ChangedAll and Depth of internal/checkpoint/checkpoint.go.
use be_code_redux.Base.{
  ℕ, suc, List, [], ◌∷◌, ◌++◌, Text, text_keyed, ◌==◌, Option, none, some, if◌then◌else◌, any,
}
use be_code_redux.Checkpoint.{Turn, Checkpointer, is_empty, Place, last_non_empty, turns}

abbrev order_of : Option Place → List Text
order_of none = []
order_of (some (newer, t, older)) = t.order

-- ChangedLast
unfoldable pub changed_last : Checkpointer → List Text
unfolding last_non_empty
changed_last c = order_of (last_non_empty (turns c))

unfoldable pub first_seen : List Text → List Text → List Text
first_seen out [] = out
first_seen out (rel ∷ order) =
    first_seen (if any (λ p. p == rel) out then out else out ++ rel ∷ []) order

-- ChangedAll, over the turns with the newest first
unfoldable pub changed_all : List Turn → List Text
unfolding first_seen
changed_all [] = []
changed_all (t ∷ older) = first_seen (changed_all older) t.order

-- Depth
unfoldable pub depth : List Turn → ℕ
depth [] = 0
depth (t ∷ older) = let n = depth older in if is_empty t then n else suc n
