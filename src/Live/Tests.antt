-- ===== src/Live/Tests.antt =====
-- Small runs of the frames, the chord and the line ends, and their theorems at them.
use be_code_redux.Base.{
  ℕ, List, [], ◌∷◌, ◌++◌, true, false, codes, ◌≡◌, ◌≢◌, ◌⊎◌, refl, arith, ok, err, some, nat_keyed,
}
use be_code_redux.Live.Chord.{Chord, action_none, action_detach, feed, IsRead, feed-Keys}
use be_code_redux.Live.Crlf.{translate, crlf_write}
use be_code_redux.Live.Frame.{
  write_frame, read_frame, read_payload, read_full, append_to, write_frame-read_frame, eof,
}

program : Unit {0}
unfolding feed translate crlf_write write_frame read_frame read_payload read_full
program = tt

abbrev calm : Chord
calm = record { pending = false; since = 0 }

-- x, Ctrl+], d, y
detaches : (feed calm (120 ∷ 29 ∷ 100 ∷ 121 ∷ []) 5).forward ≡ 120 ∷ []
unfolding program
detaches = refl

late :
    (feed (record { pending = true; since = 0 }) (100 ∷ []) 2_000_000_000).forward ≡ 29 ∷ 100 ∷ []
unfolding program
late = refl

-- Ctrl+] a second ago, then d, x
abbrev waited : Chord
waited = record { pending = true; since = 5 }

abbrev typed : List ℕ
typed = 100 ∷ 120 ∷ []

feed-Keys_example :
    ((typed ≡ [])
      × (feed waited typed 1_000_000_005
          ≡ record { chord = waited; forward = []; act = action_none }))
    ⊎ ((typed ≢ []) × IsRead waited 1_000_000_005 typed (feed waited typed 1_000_000_005))
feed-Keys_example = feed-Keys waited typed 1_000_000_005

leaves :
    feed waited typed 1_000_000_005
    ≡ record { chord = record { pending = false; since = 5 }; forward = []; act = action_detach }
unfolding program
leaves = refl

refused : crlf_write {E = ℕ} (λ out. some 4) false (codes "a\n") ≡ (false, (0, some 4))
unfolding program
refused = refl

-- A stream cut inside a header, and one cut right behind it.
cut_header : read_frame (2 ∷ 0 ∷ []) ≡ err eof
unfolding program
cut_header = refl

cut_payload : read_frame (2 ∷ 0 ∷ 0 ∷ 0 ∷ 3 ∷ []) ≡ err eof
unfolding program
cut_payload = refl

write_frame-read_frame_example :
    (sent : List ℕ) × (write_frame append_to (9 ∷ []) 2 (codes "hi") ≡ ok (9 ∷ sent))
    × (read_frame (sent ++ 7 ∷ []) ≡ ok (record { kind = 2; payload = codes "hi" }, 7 ∷ []))
write_frame-read_frame_example =
    write_frame-read_frame (9 ∷ []) (7 ∷ []) 2 (codes "hi") (omega arith)
