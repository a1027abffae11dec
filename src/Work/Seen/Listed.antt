-- ===== src/Work/Seen/Listed.antt =====
-- Drifted lists each path whose baseline differs from the disk.
use be_code_redux.Base.{true, Text, text_keyed, Option, none, some, ◌≡◌}
use be_code_redux.Files.{Contents}
use be_code_redux.Work.Seen.{Seen, moved}

module _ (hash : Text → Text) where
  module _ (read : Text → Contents) (path : Text) where
    -- The baseline, if there is one, differs from the disk.
    abbrev pub HasMoved : Option Text → Type 0
    HasMoved none = ⊥
    HasMoved (some was) = moved hash was (read path) ≡ true
