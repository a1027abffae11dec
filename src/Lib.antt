-- ===== src/Lib.antt =====
-- be-code: a verification library of core parts of the be-code harness, a terminal program in Go that
-- runs language models over a workspace. Paths below are from the repository's root.
--
-- Sub-agents. The main model plans in a task tree and hands steps to sub-agents, each with a scope of
-- workspace paths. internal/subagent/scope.go cleans scopes and compares them, ready.go says which
-- steps may run now, and lanes.go lets one call at a time through to each model server.
--   Paths.antt           Go's path.Clean, strings.Split, TrimSpace and their kin, as functions on code
--                        points; Paths/Names.antt says what cleaned paths look like
--   Subagent/Scope.antt  CleanScope, CleanJobScope, InScope, Within, Overlap (clean_scope,
--                        clean_job_scope, in_scope, within, overlap); proofs in Scope/Cleaning,
--                        Scope/Covering and Scope/Sharing
--   Subagent/Ready.antt  Ready: its index of the tree, and its sweep over the candidates with the
--                        scopes taken so far; proofs in Ready/Tops, Indexed, Chosen, Disjoint,
--                        Partition. Ready calls overlap of Subagent/Scope
--   Subagent/Lanes.antt  a lane, and Acquire and its release as the steps of any number of callers;
--                        proofs in Lanes/Counts and Lanes/Exclusive
-- Conversation. internal/agent keeps the messages to a model within its token budget (history.go) and
-- notices calls that go round in circles (repeat.go).
--   Agent/History.antt   the estimate and the limits, CollapseOldToolResults, trim, RepairOrphans and
--                        Prompt; proofs in History/Pairing, Dropping and Fitting
--   Agent/Repeat.antt    the count of calls made again with one result (note of repeat.go); proofs in
--                        Repeat/Counting
-- Task tree. internal/engine/node.go is the tree that the user's document shows; each dispatched subtree
-- is a pen with a doing node of its own.
--   Engine/Tree.antt     the nodes, Find, nextIndex, Add and Remove (a *Node is a place in the walk);
--                        proofs in Tree/Ids, Placed, Grown, Numbered and Removed
--   Engine/Status.antt   penOf, OwnerOf, Doing, DoingUnder, SetStatus and Terminal; proofs in
--                        Status/Pens, Counts, Names, Demotions and Exclusive
--   Decimal.antt         strconv.Itoa and Atoi with Go's 64-bit int
-- Schedules. internal/schedule says when a scheduled event is due and what it may do unasked.
--   Schedule/Cron.antt   cron.go: cronField, parseCron, and in Cron/Next dayMatches and next; proofs in
--                        Cron/Rounds, Parts, Fields, Loops and Next
--   Schedule/Spec.antt   spec.go: wall, transitionNear, Next, and NextDue of schedule.go; ParseIn in
--                        Spec/Reading; proofs in Spec/Bisection and Spec/Grid
--   Schedule/Allow.antt  allow.go: ParseGrant, ParseAllowance, ParseStanding and the tests of a path, a
--                        host and a tool; proofs in Allow/Standing and Allow/Writing
--   Schedule/Doc.antt    doc.go: Put, Remove and Schedules; Doc/Map is the map that a document stands
--                        for, Doc/Putting and Doc/Removing compare with it
-- Edits. internal/diff/diff.go shows what an edit changes.
--   Diff.antt            diffOps and lcsOps: common, fill_table, read_ops, diff_ops. Diff/Script and
--                        Diff/Patch read the operations as a patch, Diff/Ends takes the common ends
--                        off, Diff/Best and Diff/Longest compare with any other edit script
--   Diff/Hunks.antt      splitLines, buildHunks, Unified and Stats; proofs in Hunks/Parts, Stretches,
--                        Reach, Shown and Counted
-- Command output. internal/tools/capped.go keeps the first and last bytes of long output.
--   Tools/Capped.antt    Write and String; proofs in Capped/Ring, Loop, Kept and Shown
-- Files. The disk, the repository and the git program are parameters: Files.antt has the operations
-- that the program asks of the system and the laws that it relies on, Files/Memory.antt a system that
-- meets them, for the runs.
--   Work/Git.antt        internal/gitctx: IsRepo, Ignored, InTree, SnapshotTo
--   Work/Seen.antt       internal/workledger/seen.go and run.go: what a session and a sub-agent's run
--                        have seen, Changed and Drifted; proofs in Seen/Drift and Seen/Listed
--   Work/Restore.antt    restore.go: sidecar and PruneSidecars; proofs in Restore/Naming
--   Work/Keep.antt       KeepOld of restore.go and Resolve of resolve.go; proofs in Keep/Copying and
--                        Keep/Keeping
--   Work/Ledger.antt     session.go: OnRead, OnWrote, NoteHash, Changed, OnConflict, Close and the
--                        record that write builds; proofs in Ledger/Conflicts, Judged and Written
--   Checkpoint.antt      internal/checkpoint/checkpoint.go: BeginTurn, Record and Undo, and in
--                        Checkpoint/Views ChangedLast, ChangedAll and Depth; proofs in
--                        Checkpoint/Saved, Recorded, Grown and Undone
--   Tools/Writes.antt    internal/tools/fs.go: write_file behind its approval, which asks the ledger,
--                        then Record, then writes and tells the ledger; proofs in Writes/Keeping,
--                        Undoing and Warranted
--   Tools/Edits.antt     fs.go: edit_file behind its approval; proofs in Edits/Once
-- Live sessions. internal/live lets terminals attach to a running session.
--   Live/Frame.antt      WriteFrame and ReadFrame (frame.go)
--   Live/Chord.antt      the detach chord in a terminal's keys (chord.go)
--   Live/Crlf.antt       line ends for raw terminals (crlf.go)
-- Input recall. internal/tui/history.go keeps the submitted lines and each terminal's place.
--   Tui/History.antt     the store, its cursors, add, prev and next; proofs in History/Recall
-- API server. internal/api/budget.go limits each app's requests.
--   Api/Budget.antt      take, begin and its release (take_slot, begin, end_slot); proofs in
--                        Budget/Window and Budget/Inflight
-- Base.antt and its children hold what these share: Boolean tests, lists over native numbers, maps as
-- association lists, Go's (value, error) results. Tests.antt files hold runs and applied theorems.
--
-- How the code is read. A text is a list of code points (Paths, scopes, lines) or of bytes
-- (streams, output, messages). A Go map is an association list; the order in which `range` visits
-- one is a parameter, `range` of Ready and `visit` of Undo, of which the theorems ask only that it
-- visits all entries. Errors are values. A struct that a method changes is passed in and returned.
-- An int that the code keeps at or above 0 is a natural number, and a subtraction is written where
-- its operands are known to be in order. A sync.Mutex makes a section one step; sync.Cond only
-- decides when a waiting caller tests again, and here it may at any time. An instant of
-- Schedule/Spec is a number of nanoseconds from a far past, so that a few hours before one are
-- still a number. The clock, which a call reads once, but for KeepOld, which reads it for each
-- name that it tries and, as the `later` of a Setting, when old copies are taken away,
-- the answers of a person, the effect of a post_write hook, the running set, the cards, the decimal
-- digits of %d, the writer behind a stream, a zone's calendar, the estimate of tokens, SHA-256 and
-- the JSON of a call's arguments are parameters.
--
-- Bounds and fuel. Loops are structural recursion but for these. The one over the bytes behind the
-- head in Tools/Capped (fill_tail) has the number of those bytes as its fuel: a round that appends
-- takes at least one. trim's dropping loop has a round for each message, and each round takes one.
-- The loop of cronField has 128 rounds: a field has at most 60 values, and a step that overflows
-- comes back below its start at most 30 times. The bisection of transitionNear has 16: six hours
-- are below a second after 15 halvings. The searches for a free name of a sidecar or a branch have
-- a fuel that nothing bounds in the code: a search that has not ended is a result of its own, and
-- Restore/Naming says when there is an end. buildHunks' loop has a round for each operation, and
-- each round takes one. diffOps compares tables of at most 4,000,000 cells, whose entries stay far
-- below the 32 bits of int32. The sizes of the capped buffer are a parameter (Shares) and
-- code_shares holds the program's.
--
-- Not modelled: LaneKey (net/url), the reading and writing of schedules.md, a schedule's hash,
-- ShortestGap, the JSON payloads of frames, the rendering of hunks, the evidence of a task
-- node, the document and the store of the task engine, the approval of writes, the text of a
-- conflict's detail, the work records of other sessions, processes, HTTP, the model providers and
-- the terminal drawing.
pub mod Base
pub mod Paths
pub mod Decimal
pub mod Files
pub mod Work
pub mod Checkpoint
pub mod Subagent
pub mod Diff
pub mod Tools
pub mod Live
pub mod Tui
pub mod Api
pub mod Engine
pub mod Schedule
pub mod Agent
