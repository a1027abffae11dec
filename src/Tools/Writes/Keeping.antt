-- ===== src/Tools/Writes/Keeping.antt =====
-- While a turn writes files, what they were is kept.
use be_code_redux.Base.{
  ℕ, List, Bool, true, false, Text, text_keyed, ◌==◌, Option, some, lookup, insert, eq_of_beq,
  Bool-cases, inl, inr, ◌⊎◌, ◌≡◌, refl, sym, ap, subst, All, IsKeyed, insert-IsKeyed, All-insert,
}
use be_code_redux.Files.{System, IsLawful}
use be_code_redux.Work.Keep.{is_inside}
use be_code_redux.Checkpoint.{
  FileState, Files, Turn, Checkpointer, Step, if_tracked, record_in, record_file, with_step,
}
use be_code_redux.Checkpoint.Saved.{IsLayout, IsSaved, IsTracked, IsKept, IsTracked-moved}
use be_code_redux.Checkpoint.Recorded.{record_in-Good}
use be_code_redux.Checkpoint.Grown.{IsOneMore, if_tracked-IsOneMore}
use be_code_redux.Tools.Writes.{
  Refusal, outcome, into_folder, store_file, if_recorded, write_recorded,
}

module _ (S : System) (now : ℕ) (laws : IsLawful S now) (c : Checkpointer) (folder : Text)
    (Q : Text → Type 0) (layout : IsLayout S c.root folder Q) (start : S.Disk) where
  abbrev Kept : Files → S.Disk → Type 0
  Kept = IsKept S now laws c.root folder Q layout start

  -- The current turn keeps what its files were.
  pub record IsRunning (t : Turn) (d : S.Disk) : Type 0 where
    pub here : t.folder ≡ folder
    pub kept : Kept t.files d
    pub keyed : IsKeyed t.files
    pub ours : All (λ e. Q e.0) t.files

  abbrev pub with_turn : Turn → Checkpointer
  with_turn t = record c { cur = some t }

  abbrev pub with_files : Turn → Files → List Text → Turn
  with_files t files order = record t { files = files; order = order }

  -- A write of a file whose state is saved.
  store_file-Kept :
      (r bytes : Text) (files : Files) (d : S.Disk) (st : FileState)
      → Q r
      → lookup r files ≡ some st
      → Kept files d
      → Kept files (store_file S (S.joined c.root r) bytes d).0
  unfolding store_file
  store_file-Kept r bytes files d st q known kept =
      go (S.make_folders d (S.folder_of (S.joined c.root r))) refl
    where
      path : Text
      path = S.joined c.root r

      one : S.Disk
      one = (S.make_folders d (S.folder_of path)).0

      kept_one : Kept files one
      kept_one s qs =
          IsTracked-moved S now laws c.root folder Q layout start d one s (lookup s files)
            (λ m b h. laws.node-make_folders_file d _ (S.joined folder s) b m h)
            (laws.node-make_folders_other d _ (S.joined c.root s) (layout.not_above_file r s q qs))
            (kept s qs)

      two : S.Disk
      two = (S.write one path bytes 420).0

      kept_two : Kept files two
      kept_two s qs = elim (Bool-cases (r == s)) [
        | inr e ↦
            IsTracked-moved S now laws c.root folder Q layout start one two s (lookup s files)
              (λ m b h.
                laws.node-write_file one path bytes 420 _ b m (layout.file_apart r s q qs) h)
              (laws.node-write_other one path bytes 420 _ (layout.files_apart r s q qs e))
              (kept_one s qs)
        | inl e ↦
            subst (λ t. IsTracked S now laws c.root folder Q layout start two t (lookup t files))
              (eq_of_beq {j = r} {k = s} e)
              (subst (IsTracked S now laws c.root folder Q layout start two r) (sym known) (
                saved (
                  subst (IsTracked S now laws c.root folder Q layout start one r) known
                    (kept_one r q))))
      ]
        where
          saved :
              IsSaved S now laws c.root folder Q layout start one r st
              → IsSaved S now laws c.root folder Q layout start two r st
          saved (inr new) = inr new
          saved (inl (e, p, b, at_start, m, n)) = inl (
            e,
            p,
            b,
            at_start,
            m,
            laws.node-write_file one path bytes 420 _ b m (layout.file_apart r r q q) n,
          )

      last : (w : S.Disk × Bool) → w.0 ≡ two → Kept files (outcome S w Refusal.not_written).0
      last (a, true) e = subst (Kept files) (sym e) kept_two
      last (a, false) e = subst (Kept files) (sym e) kept_two

      go :
          (w : S.Disk × Bool)
          → w ≡ S.make_folders d (S.folder_of path)
          → Kept files (into_folder S path bytes w).0
      go (a, false) e = subst (Kept files) (sym (ap (λ v. v.0) e)) kept_one
      go (a, true) e =
          last (S.write a path bytes 420) (ap (λ x. (S.write x path bytes 420).0) (ap (λ v. v.0) e))

  abbrev with_step_of : Turn → Step S → Turn
  with_step_of t (files, order, d, well) = with_files t files order

  -- A write after Record, whatever the two give.
  module _ (r bytes : Text) (q : Q r) where
    if_recorded-IsRunning :
        (t : Turn) (d : S.Disk) (step : Step S)
        → IsRunning t d
        → (step.0 ≡ t.files) ⊎ ((st : FileState) × (step.0 ≡ insert r st t.files))
        → Kept step.0 step.2
        → (step.3 ≡ true → (st : FileState) × (lookup r step.0 ≡ some st))
        → (t' : Turn) × (d' : S.Disk) × (e : Option Refusal) × (if_recorded S
              (S.joined c.root r)
              bytes
              (with_step S (with_turn t) t step)
            ≡ (with_turn t', d', e))
          × IsRunning t' d'
    if_recorded-IsRunning t d (files, order, a, well) run more kept known = go well known
      where
        keyed : IsKeyed files
        keyed = elim more [
          | inl e ↦ subst IsKeyed (sym e) run.keyed
          | inr (st, e) ↦ subst IsKeyed (sym e) (insert-IsKeyed r st t.files run.keyed)
        ]

        ours : All (λ e. Q e.0) files
        ours = elim more [
          | inl e ↦ subst (All (λ e. Q e.0)) (sym e) run.ours
          | inr (st, e) ↦
              subst (All (λ e. Q e.0)) (sym e) (All-insert (λ e. Q e.0) r st t.files q run.ours)
        ]

        t' : Turn
        t' = with_files t files order

        go :
            (well : Bool)
            → (well ≡ true → (st : FileState) × (lookup r files ≡ some st))
            → (t' : Turn) × (d' : S.Disk) × (e : Option Refusal) × (if_recorded S
                  (S.joined c.root r)
                  bytes
                  (with_step S (with_turn t) t (files, order, a, well))
                ≡ (with_turn t', d', e))
              × IsRunning t' d'
        go false known = (
          t',
          a,
          some Refusal.checkpoint_failed,
          refl,
          record { here = run.here; kept = kept; keyed = keyed; ours = ours },
        )
        go true known =
            let (st, has) = known refl in
            let w = store_file S (S.joined c.root r) bytes a in
            (
              t',
              w.0,
              w.1,
              refl,
              record {
                here = run.here;
                kept = store_file-Kept r bytes files a st q has kept;
                keyed = keyed;
                ours = ours;
              },
            )

    pub write_recorded-IsRunning :
        (t : Turn) (d : S.Disk)
        → IsRunning t d
        → (t' : Turn) × (d' : S.Disk) × (e : Option Refusal) × (write_recorded S
              (S.joined c.root r)
              bytes
              (with_turn t)
              d
            ≡ (with_turn t', d', e))
          × IsRunning t' d'
    unfolding write_recorded record_file
    write_recorded-IsRunning t d run =
        let (kept, known) =
          record_in-Good S now laws c.root folder Q layout start r q t d run.here run.kept in
        if_recorded-IsRunning t d (record_in S c.root (S.joined c.root r) t d) run grown kept known
      where
        grown :
            ((record_in S c.root (S.joined c.root r) t d).0 ≡ t.files)
            ⊎ ((st : FileState) × ((record_in S c.root (S.joined c.root r) t d).0
                  ≡ insert r st t.files))
        grown =
            unfold record_in in
            subst
              (λ o.
                IsOneMore S (S.joined c.root r) t.folder r t.files t.order
                  (if_tracked S (S.joined c.root r) t.folder t.files t.order d (is_inside o) o))
              (sym (layout.relative_joined r q))
              (if_tracked-IsOneMore S (S.joined c.root r) t.folder r t.files t.order d
                (is_inside (some r)))
