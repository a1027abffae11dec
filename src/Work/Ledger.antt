-- ===== src/Work/Ledger.antt =====
-- internal/workledger/session.go: one session's ledger, its record and the hook that a write asks.
-- The record's JSON file is not modelled: `write` gives the record that Save is handed.
pub mod Conflicts
pub mod Judged
pub mod Written
use be_code_redux.Base.{
  ℕ, ◌+◌, ◌-◌, List, [], ◌∷◌, ◌++◌, Bool, true, false, not, ◌&&◌, ◌||◌, Text, codes, text_keyed,
  nat_keyed, ◌==◌, Option, none, some, if◌then◌else◌, Result, ok, err, any, length, drop, ltb, leb,
}
use be_code_redux.Files.{System, Contents, read}
use be_code_redux.Work.Seen.{
  Seen, Change, unchanged, changed_to, unread, note_hash, note, changed, shown,
}
use be_code_redux.Work.Restore.{Loss}
use be_code_redux.Work.Keep.{
  Setting, Attendance, Decision, keep_mine, keep_theirs, Notice, Resolved, resolve,
}

-- Record, without what never changes: the pid, the start, the workspace and the model.
pub record WorkRecord : Type 0 where
  pub updated : Text
  pub branch : Text
  pub session : Text
  pub task : Text
  pub writing : List Text
  pub jobs : List Text
  pub recent : Bool

-- Ledger without its locks and the notice of a record that could not be saved; `record_dir` is
-- missing where no folder could be made, `last_touch` before the first.
pub record Ledger : Type 0 where
  pub enabled : Bool
  pub closed : Bool
  pub record_dir : Option Text
  pub last_touch : Option ℕ
  pub seen : Seen
  pub last_turn : ℕ
  pub written : List Text
  pub work : WorkRecord

-- What the ledger pulls when it writes its record: the clock in seconds and as a text, the branch
-- that is checked out, and the functions that SetState, SetSession and SetJobs gave it.
pub record Sources : Type 0 where
  pub clock : ℕ
  pub clock_text : Text
  pub branch_now : Text
  pub state : Option (Text × ℕ)
  pub session_id : Option Text
  pub running : Option (List Text)

abbrev pub heartbeat : ℕ
heartbeat = 60

abbrev pub writing_cap : ℕ
writing_cap = 10

abbrev pub is_active : Ledger → Bool
is_active l = l.enabled && not l.closed

abbrev pub or_kept {ℓ} : {A : Type ℓ} → A → Option A → A
or_kept old none = old
or_kept old (some new) = new

abbrev task_of : Option (Text × ℕ) → Option Text
task_of none = none
task_of (some (task, turn)) = some task

abbrev pub touched_lately : ℕ → Option ℕ → Bool
touched_lately now none = false
touched_lately now (some t) = ltb (now - t) heartbeat

abbrev renewed : Bool → Sources → WorkRecord → WorkRecord
renewed force src w = record {
  updated = src.clock_text;
  branch = if force then w.branch else src.branch_now;
  session = or_kept w.session src.session_id;
  task = or_kept w.task (task_of src.state);
  writing = w.writing;
  jobs = or_kept w.jobs src.running;
  recent = w.recent;
}

abbrev pub write_in : Bool → Sources → Ledger → Option Text → Ledger × Option WorkRecord
write_in force src l none = (l, none)
write_in force src l (some folder) =
    let w = renewed force src l.work in
    if l.closed || (not force && touched_lately src.clock l.last_touch)
    then (l, none)
    else (record l { last_touch = some src.clock; work = w }, some w)

-- write; `touch` and `refresh` are touch and Refresh.
unfoldable pub write : Bool → Sources → Ledger → Ledger × Option WorkRecord
write force src l = write_in force src l l.record_dir

abbrev pub touch : Sources → Ledger → Ledger × Option WorkRecord
touch src l = write false src l

abbrev pub refresh : Sources → Ledger → Ledger × Option WorkRecord
refresh src l = write true src l

-- The written paths once the turn is `state`'s, and with one more.
abbrev pub this_turn : Option (Text × ℕ) → ℕ → List Text → ℕ × List Text
this_turn none last written = (last, written)
this_turn (some (task, turn)) last written = if turn == last then (last, written) else (turn, [])

abbrev pub newest : List Text → List Text
newest written =
    if ltb writing_cap (length written)
    then drop (length written - writing_cap) written
    else written

unfoldable pub with_path : Text → List Text → List Text
with_path rel written =
    if any (λ p. p == rel) written then written else newest (written ++ rel ∷ [])

abbrev has_no_state : Option (Text × ℕ) → Bool
has_no_state none = true
has_no_state (some s) = false

abbrev pub has_dir : Option Text → Bool
has_dir none = false
has_dir (some folder) = true

abbrev pub listed : Text → Sources → Ledger → Ledger
listed rel src l =
    let (turn, before) = this_turn src.state l.last_turn l.written in
    let now = with_path rel before in
    record l {
      last_turn = turn;
      written = now;
      work = record l.work { writing = now; recent = has_no_state src.state };
    }

-- OnWrote of the path that is shown as `rel`
unfoldable pub on_wrote : Text → Sources → Ledger → Ledger × Option WorkRecord
unfolding write with_path
on_wrote rel src l =
    if is_active l && has_dir l.record_dir then touch src (listed rel src l) else (l, none)

-- Close; the flag says that the record is taken away.
unfoldable pub close : Ledger → Ledger × Bool
close l = (record l { closed = true }, not l.closed && l.enabled && has_dir l.record_dir)

abbrev pub is_change : Change → Bool
is_change unchanged = false
is_change (changed_to theirs) = true
is_change unread = false

-- HashBytes of no bytes at all is that of an empty text.
abbrev pub bytes_of : Option Text → Text
bytes_of none = []
bytes_of (some b) = b

module _ (hash : Text → Text) where
  -- OnRead
  unfoldable pub on_read : Text → Text → Sources → Ledger → Ledger × Option WorkRecord
  unfolding write
  on_read path content src l =
      if is_active l
      then touch src (record l { seen = note hash path content l.seen })
      else (l, none)

  -- NoteHash
  unfoldable pub on_hash : Text → Text → Ledger → Ledger
  on_hash path h l = if is_active l then record l { seen = note_hash hash path h l.seen } else l

  -- Changed
  unfoldable pub has_changed : (Text → Contents) → Text → Ledger → Bool
  unfolding changed
  has_changed read path l = if is_active l then is_change (changed hash read path l.seen) else false

  module _ (S : System) (at : Setting) where
    -- What OnConflict hands back: whether to write or an error, and the notices.
    abbrev pub Verdict : Type 0
    Verdict = Ledger × S.Disk × S.Repo × Option (Result Loss Bool × List Notice)

    abbrev pub settled : Text → Option Text → Ledger → Resolved S at → Verdict
    settled path theirs l (d, r, none) = (l, d, r, none)
    settled path theirs l (d, r, some (err e, notices)) = (l, d, r, some (err e, notices))
    settled path theirs l (d, r, some (ok keep_mine, notices)) = (l, d, r, some (ok true, notices))
    settled path theirs l (d, r, some (ok keep_theirs, notices)) = (
      record l { seen = note hash path (bytes_of theirs) l.seen },
      d,
      r,
      some (ok false, notices),
    )

    abbrev pub judged :
        Option Bool → Attendance → Text → Ledger → S.Disk → S.Repo → Change → Verdict
    judged ask who path l d r unchanged = (l, d, r, some (ok true, []))
    judged ask who path l d r unread = (l, d, r, some (ok true, []))
    judged ask who path l d r (changed_to theirs) =
        settled path theirs l (resolve S at ask who path d r)

    -- A write of a session whose hooks are off goes on.
    abbrev pub if_active :
        Option Bool → Attendance → Text → Ledger → S.Disk → S.Repo → Bool → Verdict
    if_active ask who path l d r false = (l, d, r, some (ok true, []))
    if_active ask who path l d r true =
        judged ask who path l d r (changed hash (read S d) path l.seen)

    -- OnConflict
    unfoldable pub on_conflict :
        Option Bool → Attendance → Text → Ledger → S.Disk → S.Repo → Verdict
    unfolding changed resolve
    on_conflict ask who path l d r = if_active ask who path l d r (is_active l)
