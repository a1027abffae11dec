-- ===== src/Tools/Capped.antt =====
-- internal/tools/capped.go: the buffer that keeps the first and the last bytes of a command's
-- output. The two sizes are a parameter; `code_shares` holds the program's.
pub mod Ring
pub mod Loop
pub mod Kept
pub mod Shown
mod Tests
use be_code_redux.Base.{
  ℕ, zero, suc, ◌+◌, ◌-◌, ◌*◌, ◌/◌, ◌%◌, ◌^◌, ◌≤◌, ◌<◌, min, List, [], ◌∷◌, ◌++◌, Bool, true, false,
  not, ◌&&◌, Text, codes, nat_keyed, ◌==◌, if◌then◌else◌, ltb, length, take, drop, set,
}

pub record Shares : Type 0 where
  pub head_share : ℕ
  pub tail_cap : ℕ

abbrev pub max_captured_output : ℕ
max_captured_output = 2 * 2 ^ 20

abbrev pub code_shares : Shares
code_shares = record {
  head_share = 3 * max_captured_output / 4;
  tail_cap = max_captured_output - 3 * max_captured_output / 4;
}

pub record CappedBuffer : Type 0 where
  pub head : List ℕ
  -- the ring of the most recent bytes, once head is full
  pub tail : List ℕ
  pub start : ℕ
  pub wrapped : Bool
  pub dropped : ℕ

abbrev pub new_buffer : CappedBuffer
new_buffer = record { head = []; tail = []; start = 0; wrapped = false; dropped = 0 }

module _ (s : Shares) where
  -- Write's first part: the buffer with its head filled, and the bytes left.
  abbrev pub fill_head : CappedBuffer → List ℕ → CappedBuffer × List ℕ
  fill_head b p =
      let n = min (s.head_share - length b.head) (length p) in
      if ltb (length b.head) s.head_share
      then (record b { head = b.head ++ take n p }, drop n p)
      else (b, p)

  -- One byte over the oldest one of a full ring.
  abbrev pub put_byte : CappedBuffer → ℕ → CappedBuffer
  put_byte b c = record b {
    tail = set b.tail b.start c;
    start = (b.start + 1) % s.tail_cap;
    dropped = b.dropped + 1;
  }

  unfoldable pub overwrite : CappedBuffer → List ℕ → CappedBuffer
  overwrite b [] = b
  overwrite b (c ∷ p) = overwrite (put_byte b c) p

  -- The loop over what the head leaves, on fuel: a round that appends to the tail takes a byte.
  unfoldable pub fill_tail : ℕ → CappedBuffer → List ℕ → CappedBuffer
  unfolding overwrite
  fill_tail zero b p = b
  fill_tail (suc fuel) b [] = b
  fill_tail (suc fuel) b (c ∷ p) =
      let n = min (s.tail_cap - length b.tail) (suc (length p)) in
      let grown : CappedBuffer = record b { tail = b.tail ++ take n (c ∷ p) } in
      let rest = fill_tail fuel grown (drop n (c ∷ p)) in
      if ltb (length b.tail) s.tail_cap
      then rest
      else overwrite (record b { wrapped = true }) (c ∷ p)

  -- Write: the buffer after it and the number of bytes it reports.
  unfoldable pub write : CappedBuffer → List ℕ → CappedBuffer × ℕ
  unfolding fill_tail
  write b p = let (b', rest) = fill_head b p in (fill_tail (length rest) b' rest, length p)

  -- What a sequence of writes leaves.
  unfoldable pub write_all : CappedBuffer → List (List ℕ) → CappedBuffer
  write_all b [] = b
  write_all b (p ∷ ps) = write_all (write b p).0 ps

  -- The line that stands for the bytes dropped; `decimal` is what the verb %d prints.
  unfoldable pub elided : (ℕ → Text) → ℕ → Text
  elided decimal n =
      codes "\n... ["
      ++ decimal n
      ++ codes " bytes elided: output exceeded "
      ++ decimal (s.head_share + s.tail_cap)
      ++ codes " bytes] ...\n"

  -- String
  unfoldable pub string : (ℕ → Text) → CappedBuffer → Text
  unfolding elided
  string decimal b =
      if not b.wrapped && (b.dropped == 0)
      then b.head ++ b.tail
      else b.head ++ elided decimal b.dropped ++ (drop b.start b.tail ++ take b.start b.tail)
