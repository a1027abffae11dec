-- ===== src/Diff/Hunks/Counted.antt =====
-- Stats of the hunks.
use be_code_redux.Base.{ℕ, suc, ◌+◌}
use be_code_redux.Diff.{Kind, kept, gone, added}

abbrev counted : Kind → ℕ × ℕ → ℕ × ℕ
counted kept n = n
counted gone n = (n.0, suc n.1)
counted added n = (suc n.0, n.1)

abbrev both : ℕ × ℕ → ℕ × ℕ → ℕ × ℕ
both m n = (m.0 + n.0, m.1 + n.1)
