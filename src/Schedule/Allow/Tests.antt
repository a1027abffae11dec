-- ===== src/Schedule/Allow/Tests.antt =====
-- Grants that are read and refused, and the theorems at them.
use be_code_redux.Base.{
  ℕ, List, [], ◌∷◌, ◌++◌, Bool, true, false, Text, codes, text_keyed, nat_keyed, ◌==◌, ltb, Option,
  some, ok, err, ◌≡◌, refl,
}
use be_code_redux.Paths.{split, join, trim_space, clean, climbs, keep, kept}
use be_code_redux.Paths.Names.{IsInside}
use be_code_redux.Schedule.Cron.{cut}
use be_code_redux.Schedule.Allow.{
  write, shell, outside_workspace, every_command, parse_kind, parse_grant, parse_allowance,
  parse_standing, values, write_allowed, host_allowed, tool_allowed, broad, grant_text,
}
use be_code_redux.Schedule.Allow.Standing.{first_error, joined, parse_allowance-standing}
use be_code_redux.Schedule.Allow.Writing.{write_allowed-IsInside}

program : Unit {0}
unfolding split join trim_space clean climbs keep kept cut parse_kind parse_grant parse_allowance
    parse_standing values write_allowed host_allowed tool_allowed broad grant_text
program = tt

-- Control characters are the ones below 32, all letters are small, and a pattern matches itself.
abbrev is_control : ℕ → Bool
is_control c = ltb c 32

abbrev lower : Text → Text
lower s = s

abbrev path_match : Text → Text → Option Bool
path_match p s = some (p == s)

read :
    parse_grant is_control lower path_match (codes "write:  docs/../out/ ")
    ≡ ok (record { kind = write; value = codes "out" })
unfolding program
read = refl

refused :
    parse_grant is_control lower path_match (codes "write: ../x")
    ≡ err (outside_workspace (codes "../x"))
unfolding program
refused = refl

any_command :
    parse_grant is_control lower path_match (codes "shell: *") ≡ err (every_command (codes "*"))
unfolding program
any_command = refl

-- A grant over the whole workspace accepts a path that leaves it.
whole :
    write_allowed is_control lower path_match
      (record { kind = write; value = codes "." } ∷ [])
      (codes "../x")
    ≡ true
unfolding program
whole = refl

abbrev lines : List Text
lines = codes "write: out" ∷ codes " " ∷ codes "shell: go test" ∷ []

accepted :
    parse_allowance is_control lower path_match lines
    ≡ ok (
        record { kind = write; value = codes "out" }
        ∷ record { kind = shell; value = codes "go test" }
        ∷ [])
unfolding program
accepted = refl

narrow :
    broad is_control lower path_match (
      record { kind = write; value = codes "out" }
      ∷ record { kind = shell; value = codes "go test" }
      ∷ [])
    ≡ false
unfolding program
narrow = refl

covered :
    write_allowed is_control lower path_match
      (record { kind = write; value = codes "out" }
        ∷ record { kind = shell; value = codes "go test" }
        ∷ [])
      (codes "./out/a.txt")
    ≡ true
unfolding program
covered = refl

write_allowed-IsInside_example : IsInside (clean (codes "./out/a.txt"))
write_allowed-IsInside_example =
    write_allowed-IsInside is_control lower path_match lines
      (record { kind = write; value = codes "out" }
        ∷ record { kind = shell; value = codes "go test" }
        ∷ [])
      (codes "./out/a.txt") accepted narrow covered

parse_allowance-standing_example :
    (parse_allowance is_control lower path_match lines
      ≡ first_error (parse_standing is_control lower path_match lines))
    × (parse_standing is_control lower path_match (lines ++ codes "shell: *" ∷ [])
        ≡ joined
            (parse_standing is_control lower path_match lines)
            (parse_standing is_control lower path_match (codes "shell: *" ∷ [])))
parse_allowance-standing_example =
    parse_allowance-standing is_control lower path_match lines (codes "shell: *" ∷ [])

-- A cleaned path may end in a space, which the next reading of the grant takes away.
spaced :
    parse_grant is_control lower path_match (codes "write: b /")
    ≡ ok (record { kind = write; value = codes "b " })
unfolding program
spaced = refl

read_again :
    parse_grant is_control lower path_match
      (grant_text (record { kind = write; value = codes "b " }))
    ≡ ok (record { kind = write; value = codes "b" })
unfolding program
read_again = refl
