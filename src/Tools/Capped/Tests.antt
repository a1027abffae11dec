-- ===== src/Tools/Capped/Tests.antt =====
-- Small runs of the capped buffer, and its theorem at them.
use be_code_redux.Base.{ℕ, ◌+◌, ◌≤◌, List, [], ◌∷◌, codes, Text, ◌≡◌, refl, length, arith}
use be_code_redux.Tools.Capped.{
  Shares, code_shares, new_buffer, write, write_all, fill_tail, overwrite, string, elided,
}
use be_code_redux.Tools.Capped.Kept.{concat}
use be_code_redux.Tools.Capped.Shown.{write_all-string, shown}

program : Unit {0}
unfolding write write_all fill_tail overwrite string elided shown
program = tt

abbrev small : Shares
small = record { head_share = 2; tail_cap = 3 }

-- one digit is enough here
abbrev digit : ℕ → Text
digit n = (n + 48) ∷ []

abbrev chunks : List (List ℕ)
chunks = codes "a" ∷ codes "bcd" ∷ [] ∷ codes "efgh" ∷ codes "i" ∷ []

run :
    string small digit (write_all small new_buffer chunks)
    ≡ codes "ab\n... [4 bytes elided: output exceeded 5 bytes] ...\nghi"
unfolding program
run = refl

sizes : (code_shares.head_share ≡ 1572864) × (code_shares.tail_cap ≡ 524288)
sizes = (refl, refl)

write_all-string_example :
    (string small digit (write_all small new_buffer chunks) ≡ shown small digit (concat chunks))
    × (length (write_all small new_buffer chunks).head
          + length (write_all small new_buffer chunks).tail
        ≤ 5)
write_all-string_example = write_all-string small digit chunks (omega arith)
