-- ===== src/Tools/Writes/Undoing.antt =====
-- Undo after a turn's writes.
use be_code_redux.Base.{
  ℕ, List, [], ◌∷◌, false, Text, text_keyed, Option, none, some, lookup, inl, inr, ◌⊎◌, ◌≡◌, ◌↔◌,
  ◌≢◌, refl, sym, ap, ◌∙◌, subst, some-injective, In, All, All-In, All-members, In-lookup,
  lookup-In,
}
use be_code_redux.Files.{System, contents_of, no_answer, stat, read, IsLawful}
use be_code_redux.Checkpoint.{
  FileState, Files, Turn, Checkpointer, begin_turn, new_folder, kept_turns, is_empty, turns,
  last_non_empty, undo, undo_files, undo_turn, undo_place,
}
use be_code_redux.Checkpoint.Saved.{IsLayout, IsSaved, IsTracked}
use be_code_redux.Checkpoint.Undone.{IsBack, undo_files-IsBack}
use be_code_redux.Tools.Writes.Keeping.{IsRunning, write_recorded-IsRunning}
use be_code_redux.Tools.Writes.{write_all}

module _ (S : System) (now : ℕ) (laws : IsLawful S now) (c : Checkpointer) (folder : Text)
    (Q : Text → Type 0) (layout : IsLayout S c.root folder Q) (start : S.Disk) where
  abbrev Running : Turn → S.Disk → Type 0
  Running = IsRunning S now laws c folder Q layout start

  abbrev at_turn : Turn → Checkpointer
  at_turn t = record c { cur = some t }

  write_all-Running :
      (writes : List (Text × Text)) (t : Turn) (d : S.Disk)
      → All (λ w. Q w.0) writes
      → Running t d
      → (t' : Turn) × (d' : S.Disk) × (write_all S writes (at_turn t, d) ≡ (at_turn t', d'))
        × Running t' d'
  unfolding write_all
  write_all-Running [] t d ours run = (t, d, refl, run)
  write_all-Running ((r, bytes) ∷ writes) t d (q, ours) run =
      let (t1, d1, e, same, run1) =
        write_recorded-IsRunning S now laws c folder Q layout start r bytes q t d run in
      let (t2, d2, after, run2) = write_all-Running writes t1 d1 ours run1 in
      (t2, d2, ap (λ w. write_all S writes (w.0, w.1)) same ∙ after, run2)

  -- Undo of a current turn that has files.
  module _ (visit : Files → Files)
      (visits : (files : Files) (e : Text × FileState) → In e (visit files) ↔ In e files) where
    undo_turn-IsBack :
        (t : Turn) (d : S.Disk)
        → Running t d
        → (undo_files S c.root (visit t.files) (d, [], none)).2 ≡ none
        → (s : Text) → Q s
        → stat S start (S.joined c.root s) ≢ no_answer
        → read S
            (S.remove_tree (undo_files S c.root (visit t.files) (d, [], none)).0 t.folder)
            (S.joined c.root s)
          ≡ read S start (S.joined c.root s)
    undo_turn-IsBack t d run well s qs known =
        ap contents_of (
          ap
            (λ f.
              S.node (S.remove_tree (undo_files S c.root (visit t.files) (d, [], none)).0 f)
                (S.joined c.root s))
            run.here
          ∙ laws.node-remove_tree_other _ folder (S.joined c.root s) (layout.outside s qs))
        ∙ undo_files-IsBack S now laws c.root folder Q layout start (visit t.files) d []
            (All-members _ (visit t.files) ready) well s qs known
            (held (lookup s t.files) refl (run.kept s qs))
      where
        ready :
            (e : Text × FileState)
            → In e (visit t.files)
            → Q e.0 × IsSaved S now laws c.root folder Q layout start d e.0 e.1
        ready (r, st) m =
            let listed = (visits t.files (r, st)).0 m in
            let q = All-In (λ e. Q e.0) (r, st) t.files run.ours listed in
            (
              q,
              subst (IsTracked S now laws c.root folder Q layout start d r)
                  (lookup-In r st t.files run.keyed listed) (run.kept r q),
            )

        held :
            (o : Option FileState)
            → lookup s t.files ≡ o
            → IsTracked S now laws c.root folder Q layout start d s (lookup s t.files)
            → ((st : FileState) × In (s, st) (visit t.files))
              ⊎ IsBack S now laws c.root folder Q layout start d s
        held none e kept =
            inr (
              ap contents_of (subst (IsTracked S now laws c.root folder Q layout start d s) e kept))
        held (some st) e kept = inl (st, (visits t.files (s, st)).1 (In-lookup s st t.files e))

    -- What Undo gives for a current turn with files.
    undo_cur :
        (t : Turn) (d : S.Disk)
        → is_empty t ≡ false
        → undo S visit (at_turn t) d ≡ some (undo_turn S visit (at_turn t) d ([], t, c.earlier))
    unfolding undo last_non_empty
    undo_cur t d has = ap (undo_place S visit (at_turn t) d) (place has)
      where
        place : is_empty t ≡ false → last_non_empty (t ∷ c.earlier) ≡ some ([], t, c.earlier)
        place has = rw has refl

-- After BeginTurn and any writes of files of the workspace, of which Record has noted one, an Undo
-- that reports no failure leaves the turns there were before, and each of the files of which the
-- system could say at the start whether it was there reads as it did then: the same bytes, or gone
-- again. The files' names are those of a layout in which no file or copy is another's folder, and
-- the map of the turn's files may be read in any order.
pub undo-write_all :
    (S : System) (now : ℕ) (laws : IsLawful S now) (c : Checkpointer) (label stamp : Text)
    (Q : Text → Type 0) (layout : IsLayout S c.root (new_folder S stamp c) Q)
    (visit : Files → Files)
    (visits : (files : Files) (e : Text × FileState) → In e (visit files) ↔ In e files)
    (writes : List (Text × Text)) (d d1 d2 : S.Disk) (c1 c2 : Checkpointer) (t : Turn)
    (restored : List Text)
    → All (λ w. Q w.0) writes
    → write_all S writes (begin_turn S label stamp c, d) ≡ (c1, d1)
    → c1.cur ≡ some t
    → is_empty t ≡ false
    → undo S visit c1 d1 ≡ some (c2, (d2, restored, none))
    → (turns c2 ≡ kept_turns c.earlier c.cur)
      × ((s : Text)
          → Q s
          → stat S d (S.joined c.root s) ≢ no_answer
          → read S d2 (S.joined c.root s) ≡ read S d (S.joined c.root s))
unfolding begin_turn lookup
undo-write_all S now laws c label stamp Q layout visit visits writes d d1 d2 c1 c2 t restored ours
      wrote cur has undone =
    let begun = begin_turn S label stamp c in
    let first : Turn = record {
      label = label;
      folder = new_folder S stamp c;
      files = [];
      order = [];
    } in
    let (t', d', e, run) =
      write_all-Running S now laws begun (new_folder S stamp c) Q layout d writes first d ours
        (record { here = refl; kept = λ r q. refl; keyed = tt; ours = tt }) in
    let same = sym wrote ∙ e in
    let same_turn : t ≡ t' = some-injective (sym cur ∙ ap (λ w. w.0.cur) same) in
    let shape =
      sym undone
      ∙ ap (λ w. undo S visit w.0 w.1) same
      ∙ undo_cur S now laws begun (new_folder S stamp c) Q layout d visit visits t' d'
          (ap is_empty (sym same_turn) ∙ has) in
    let result = some-injective shape in
    (
      ap (λ r. turns r.0) result,
      λ s qs known.
          ap (λ r. read S r.1.0 (S.joined c.root s)) result
          ∙ undo_turn-IsBack S now laws begun (new_folder S stamp c) Q layout d visit visits t' d'
              run (sym (ap (λ r. r.1.2) result)) s qs known,
    )
