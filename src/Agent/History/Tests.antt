-- ===== src/Agent/History/Tests.antt =====
-- A history over its limit, what trim leaves of it, and the theorems at it.
use be_code_redux.Base.{
  ℕ, zero, suc, ◌+◌, ◌/◌, ◌≤◌, List, [], ◌∷◌, ◌++◌, true, Text, codes, text_keyed, nat_keyed, ltb,
  length, ◌≡◌, refl, arith, take,
}
use be_code_redux.Agent.History.{
  Message, History, user, assistant, tool, plain, new_history, first_user, drop_index, drop_at,
  tokens, limit, with_messages, collapse_pass, second_pass, collapse_old, drop_old, repair_from,
  repair_orphans, finished, trim, prompt_messages,
}
use be_code_redux.Agent.History.Pairing.{Paired, trim-Paired}
use be_code_redux.Agent.History.Dropping.{drop_old-keeps}
use be_code_redux.Agent.History.Fitting.{Trimmed, trim-Trimmed}

program : Unit {0}
unfolding first_user drop_index drop_at collapse_pass second_pass collapse_old drop_old repair_from
    repair_orphans finished trim prompt_messages new_history
program = tt

-- Three bytes to a token, half of the room as the aim.
abbrev est : Text → ℕ
est s = length s / 3 + 1

abbrev half : ℕ → ℕ
half n = n / 2

abbrev omit : Text → Text
omit s = codes "{}"

abbrev clip : Text → Text
clip s = take 120 s

abbrev filler : ℕ → Text
filler zero = []
filler (suc n) = b'x' ∷ filler n

abbrev task : Message
task = plain user (codes "go")

abbrev call : Message
call = record (plain assistant []) {
  calls = record { id = codes "a"; name = codes "read"; arguments = codes "{}" } ∷ [];
}

abbrev answer : Message
answer = record (plain tool (filler 60)) { call_id = codes "a" }

abbrev talk : Message
talk = plain assistant (filler 273)

abbrev last : List Message
last = talk ∷ talk ∷ talk ∷ []

abbrev long_talk : History
long_talk = record (new_history [] 512) {
  messages = task ∷ call ∷ answer ∷ talk ∷ talk ∷ last;
  extra = 4;
}

abbrev left : List Message
left = trim est half omit clip long_talk

seven : length left ≡ 7
unfolding program
seven = refl

-- The call goes, its result becomes a note, and the note takes the prompt over the limit.
noted : ltb (limit long_talk) (tokens est half omit clip (with_messages long_talk left)) ≡ true
unfolding program
noted = refl

paired : Paired [] long_talk.messages
paired = (
  λ e. cc,
  ((λ e. cc), ((λ e. refl), ((λ e. cc), ((λ e. cc), ((λ e. cc), ((λ e. cc), ((λ e. cc), tt))))))),
)

trim-Paired_example : Paired [] (trim est half omit clip long_talk)
trim-Paired_example = trim-Paired est half omit clip long_talk paired

drop_old-keeps_example :
    (kept : List Message) × (drop_old est half omit clip long_talk 8
        (task ∷ (call ∷ answer ∷ talk ∷ talk ∷ last))
      ≡ task ∷ (kept ++ last))
drop_old-keeps_example =
    drop_old-keeps est half omit clip long_talk 8 [] task (call ∷ answer ∷ talk ∷ talk ∷ []) last tt
      refl refl

nine_tenths : (n : ℕ) → half n + n / 10 ≤ n
nine_tenths n = omega arith

trim-Trimmed_example : Trimmed est half omit clip long_talk (trim est half omit clip long_talk)
trim-Trimmed_example = trim-Trimmed est half omit clip long_talk nine_tenths
