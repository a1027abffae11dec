-- ===== src/Live/Frame.antt =====
-- internal/live/frame.go: frames on a stream of bytes. A writer is a parameter; a reader is the
-- bytes that are still to come, after which the stream ends.
use be_code_redux.Base.{
  ℕ, suc, ◌+◌, ◌*◌, ◌/◌, ◌%◌, ◌^◌, ◌≤◌, ◌<◌, List, [], ◌∷◌, ◌++◌, true, false, if◌then◌else◌, ltb,
  leb, length, take, drop, Result, ok, err, ◌>>=◌, ◌≡◌, refl, ap, ◌∙◌, arith, length-append,
  append_assoc,
}

abbrev pub max_frame : ℕ
max_frame = 16 * 2 ^ 20

-- binary.BigEndian.PutUint32 and Uint32
abbrev pub put_uint32 : ℕ → List ℕ
put_uint32 n = n / 16777216 % 256 ∷ n / 65536 % 256 ∷ n / 256 % 256 ∷ n % 256 ∷ []

abbrev pub uint32 : ℕ → ℕ → ℕ → ℕ → ℕ
uint32 a b c d = a * 16777216 + b * 65536 + c * 256 + d

-- WriteFrame; `put` is the writer's Write, from its state to the next one.
unfoldable pub write_frame :
    {S E : Type 0} → (S → List ℕ → Result E S) → S → ℕ → List ℕ → Result E S
write_frame put w t payload = do
  w' ← put w (t ∷ put_uint32 (length payload % 2 ^ 32))
  put w' payload

pub data ReadError : Type 0 where
  eof unexpected_eof frame_too_large : ReadError

-- io.ReadFull of `n` bytes: the bytes and what is still to come.
unfoldable pub read_full : ℕ → List ℕ → Result ReadError (List ℕ × List ℕ)
read_full n [] = if leb n 0 then ok ([], []) else err eof
read_full n (b ∷ r) =
    if leb n (suc (length r)) then ok (take n (b ∷ r), drop n (b ∷ r)) else err unexpected_eof

pub record Frame : Type 0 where
  pub kind : ℕ
  pub payload : List ℕ

-- The header's error, which never is ErrUnexpectedEOF.
abbrev pub header_error : ReadError → ReadError
header_error unexpected_eof = eof
header_error eof = eof
header_error frame_too_large = frame_too_large

-- The part of ReadFrame behind the header.
unfoldable pub read_payload : List ℕ → List ℕ → Result ReadError (Frame × List ℕ)
unfolding read_full
read_payload (t ∷ a ∷ b ∷ c ∷ d ∷ []) r =
    if ltb max_frame (uint32 a b c d)
    then err frame_too_large
    else (read_full (uint32 a b c d) r >>= λ got. ok (record { kind = t; payload = got.0 }, got.1))
read_payload hdr r = err unexpected_eof

abbrev pub read_body : Result ReadError (List ℕ × List ℕ) → Result ReadError (Frame × List ℕ)
read_body (ok got) = read_payload got.0 got.1
read_body (err e) = err (header_error e)

-- ReadFrame
unfoldable pub read_frame : List ℕ → Result ReadError (Frame × List ℕ)
unfolding read_full read_payload
read_frame r = read_body (read_full 5 r)

frame_size :
    (n : ℕ)
    → n < 2 ^ 32
    → uint32 (n / 16777216 % 256) (n / 65536 % 256) (n / 256 % 256) (n % 256) ≡ n
frame_size n h = omega arith

take_exactly : (u v : List ℕ) → take (length u) (u ++ v) ≡ u
take_exactly [] v = refl
take_exactly (x ∷ u) v = ap (λ l. x ∷ l) (take_exactly u v)

drop_exactly : (u v : List ℕ) → drop (length u) (u ++ v) ≡ v
drop_exactly [] v = refl
drop_exactly (x ∷ u) v = drop_exactly u v

read_full-append : (u v : List ℕ) → read_full (length u) (u ++ v) ≡ ok (u, v)
unfolding read_full
read_full-append [] [] = refl
read_full-append [] (x ∷ v) = ground arith
read_full-append (x ∷ u) v =
    let room : leb (suc (length u)) (suc (length (u ++ v))) ≡ true =
      ground (arith, length-append u v) in
    rw room (rw (take_exactly u v) (rw (drop_exactly u v) refl))

read_payload-append :
    (t : ℕ) (payload rest : List ℕ)
    → length payload ≤ max_frame
    → read_payload (t ∷ put_uint32 (length payload % 2 ^ 32)) (payload ++ rest)
      ≡ ok (record { kind = t; payload = payload }, rest)
unfolding read_payload
read_payload-append t payload rest h =
    let size : length payload % 2 ^ 32 ≡ length payload = omega arith in
    let allowed : ltb max_frame (length payload) ≡ false = ground arith in
    rw size (
      rw (frame_size (length payload) (omega arith))
        (rw allowed (rw (read_full-append payload rest) refl)))

-- A writer that appends to the bytes on the stream.
abbrev pub append_to : List ℕ → List ℕ → Result (Unit {0}) (List ℕ)
append_to out p = ok (out ++ p)

abbrev frame_bytes : ℕ → List ℕ → List ℕ
frame_bytes t payload = (t ∷ put_uint32 (length payload % 2 ^ 32)) ++ payload

-- What WriteFrame puts on a stream for a payload of at most 16 MiB, ReadFrame reads back, whatever
-- follows, and leaves the rest.
pub write_frame-read_frame :
    (out rest : List ℕ) (t : ℕ) (payload : List ℕ)
    → length payload ≤ max_frame
    → (sent : List ℕ) × (write_frame append_to out t payload ≡ ok (out ++ sent))
      × (read_frame (sent ++ rest) ≡ ok (record { kind = t; payload = payload }, rest))
unfolding write_frame read_frame read_payload
write_frame-read_frame out rest t payload h =
    let hdr = t ∷ put_uint32 (length payload % 2 ^ 32) in
    (
      frame_bytes t payload,
      ap ok (append_assoc out hdr payload),
      ap read_body (read_full-append hdr (payload ++ rest)) ∙ read_payload-append t payload rest h,
    )
