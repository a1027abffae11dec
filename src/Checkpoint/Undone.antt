-- ===== src/Checkpoint/Undone.antt =====
-- Undo over the files that a turn saved, in whatever order the map is read.
use be_code_redux.Base.{
  ℕ, List, [], ◌∷◌, ◌++◌, Bool, true, false, Text, text_keyed, ◌==◌, none, some, if◌then◌else◌,
  beq_self, eq_of_beq, Bool-cases, inl, inr, ◌⊎◌, ◌≡◌, ◌≢◌, refl, sym, ap, ◌∙◌, subst, In, All,
  All-map,
}
use be_code_redux.Files.{
  System, Node, stat_of, contents_of, present, no_answer, stat, Contents, found, gone, unreadable,
  read, is_under, IsLawful, file, closed, absent, refused, Removal, removed, missing, kept_back,
}
use be_code_redux.Checkpoint.{
  FileState, Files, perm, put_back, taken_away, restore_file, noted, undo_files,
}
use be_code_redux.Checkpoint.Saved.{IsLayout, IsSaved}

module _ (S : System) (now : ℕ) (laws : IsLawful S now) (root folder : Text) (Q : Text → Type 0)
    (layout : IsLayout S root folder Q) (start : S.Disk) where
  abbrev Saved : S.Disk → Text → FileState → Type 0
  Saved = IsSaved S now laws root folder Q layout start

  -- The file holds what it held at the start.
  abbrev pub IsBack : S.Disk → Text → Type 0
  IsBack d r = read S d (S.joined root r) ≡ read S start (S.joined root r)

  -- The system could say at the start whether the file was there.
  abbrev pub WasKnown : Text → Type 0
  WasKnown r = stat S start (S.joined root r) ≢ no_answer

  was_gone :
      (n : Node) → ((m : ℕ) → stat_of n ≢ present m) → stat_of n ≢ no_answer → contents_of n ≡ gone
  was_gone (file m b) h k = absurd (h m refl)
  was_gone (closed m) h k = absurd (h m refl)
  was_gone absent h k = refl
  was_gone refused h k = absurd (k refl)

  module _ (r : Text) (q : Q r) (known : WasKnown r) where
    taken_away-IsBack :
        (d : S.Disk)
        → ((m : ℕ) → stat S start (S.joined root r) ≢ present m)
        → (taken_away S (S.remove d (S.joined root r))).1 ≡ true
        → IsBack (taken_away S (S.remove d (S.joined root r))).0 r
    taken_away-IsBack d new h = go (S.remove d (S.joined root r)) refl h
      where
        at_start : gone ≡ read S start (S.joined root r)
        at_start = sym (was_gone (S.node start (S.joined root r)) new known)

        go :
            (w : S.Disk × Removal)
            → w ≡ S.remove d (S.joined root r)
            → (taken_away S w).1 ≡ true
            → IsBack (taken_away S w).0 r
        go (a, removed) e h =
            ap (λ x. read S x (S.joined root r)) (ap (λ v. v.0) e)
            ∙ ap contents_of (laws.node-remove d (S.joined root r) (sym (ap (λ v. v.1) e)))
            ∙ at_start
        go (a, missing) e h =
            ap (λ x. read S x (S.joined root r)) (ap (λ v. v.0) e)
            ∙ ap contents_of (laws.node-remove_missing d (S.joined root r) (sym (ap (λ v. v.1) e)))
            ∙ at_start
        go (a, kept_back) e h = cc

    restore_file-IsBack :
        (st : FileState) (d : S.Disk)
        → Saved d r st
        → (restore_file S (S.joined root r) st d).1 ≡ true
        → IsBack (restore_file S (S.joined root r) st d).0 r
    restore_file-IsBack st d (inr (e, new)) h = rw e (taken_away-IsBack d new (rw e at h))
    restore_file-IsBack st d (inl (e, p, b, at_start, m, n)) h =
        let holds : read S d st.backup ≡ found b = ap (λ x. read S d x) p ∙ ap contents_of n in
        rw (e, holds)
          (let (k, back) =
              laws.node-write d (S.joined root r) b (perm S st.mode) (rw (e, holds) at h) in
            ap contents_of back ∙ sym at_start)

  -- What restoring the file asks of another path: it lies elsewhere, or it is a file.
  abbrev IsApart : Text → Text → S.Disk → Type 0
  IsApart r other d =
      (is_under (S.joined root r) other ≡ false)
      ⊎ (((S.joined root r == other) ≡ false)
          × (m : ℕ) × (its : Text) × (S.node d other ≡ file m its))

  write-apart :
      (r other bytes : Text) (mode : ℕ) (d : S.Disk)
      → IsApart r other d
      → S.node (S.write d (S.joined root r) bytes mode).0 other ≡ S.node d other
  write-apart r other bytes mode d (inl apart) =
      laws.node-write_other d (S.joined root r) bytes mode other apart
  write-apart r other bytes mode d (inr (apart, m, its, h)) =
      laws.node-write_file d (S.joined root r) bytes mode other its m apart h ∙ sym h

  remove-apart :
      (r other : Text) (d : S.Disk)
      → IsApart r other d
      → S.node (S.remove d (S.joined root r)).0 other ≡ S.node d other
  remove-apart r other d (inl apart) = laws.node-remove_other d (S.joined root r) other apart
  remove-apart r other d (inr (apart, m, its, h)) =
      laws.node-remove_file d (S.joined root r) other its m apart h ∙ sym h

  -- What is not the file stays as it is.
  node-restore_file :
      (r other : Text) (st : FileState) (d : S.Disk)
      → IsApart r other d
      → S.node (restore_file S (S.joined root r) st d).0 other ≡ S.node d other
  node-restore_file r other st d apart = go st.existed
    where
      put :
          (c : Contents)
          → S.node (put_back S (S.joined root r) st.mode d c).0 other ≡ S.node d other
      put gone = refl
      put unreadable = refl
      put (found b) = write-apart r other b (perm S st.mode) d apart

      taken : (w : S.Disk × Removal) → S.node (taken_away S w).0 other ≡ S.node w.0 other
      taken (a, removed) = refl
      taken (a, missing) = refl
      taken (a, kept_back) = refl

      go :
          (existed : Bool)
          → S.node
              (if existed
                then put_back S (S.joined root r) st.mode d (read S d st.backup)
                else taken_away S (S.remove d (S.joined root r))).0
              other
            ≡ S.node d other
      go true = put (read S d st.backup)
      go false = taken (S.remove d (S.joined root r)) ∙ remove-apart r other d apart

  restore_file-Saved :
      (r s : Text) (st its : FileState) (d : S.Disk)
      → Q r
      → Q s
      → Saved d s its
      → Saved (restore_file S (S.joined root r) st d).0 s its
  restore_file-Saved r s st its d q qs (inr new) = inr new
  restore_file-Saved r s st its d q qs (inl (e, p, b, at_start, m, n)) = inl (
    e,
    p,
    b,
    at_start,
    m,
    node-restore_file r (S.joined folder s) st d (inr (layout.file_apart r s q qs, m, b, n)) ∙ n,
  )

  noted-some :
      (r x : Text) (restored : List Text) (w : S.Disk × Bool)
      → (l : List Text) × (noted S r restored (some x) w ≡ (w.0, l, some x))
  noted-some r x restored (a, true) = (restored ++ r ∷ [], refl)
  noted-some r x restored (a, false) = (restored, refl)

  -- A failure is what Undo reports in the end.
  undo_files-fails :
      (walk : Files) (d : S.Disk) (restored : List Text) (x : Text)
      → (undo_files S root walk (d, restored, some x)).2 ≡ some x
  unfolding undo_files
  undo_files-fails [] d restored x = refl
  undo_files-fails ((r, st) ∷ walk) d restored x =
      let (l, e) = noted-some r x restored (restore_file S (S.joined root r) st d) in
      ap (λ u. (undo_files S root walk u).2) e ∙ undo_files-fails walk _ l x

  -- Where all goes well, one step is the file's and the rest follows.
  undo_files-step :
      (r : Text) (walk : Files) (restored : List Text) (w : S.Disk × Bool)
      → (undo_files S root walk (noted S r restored none w)).2 ≡ none
      → (w.1 ≡ true) × (noted S r restored none w ≡ (w.0, restored ++ r ∷ [], none))
  undo_files-step r walk restored (a, true) h = (refl, refl)
  undo_files-step r walk restored (a, false) h = cc (h, undo_files-fails walk a restored r)

  abbrev IsReady : S.Disk → Text × FileState → Type 0
  IsReady d e = Q e.0 × Saved d e.0 e.1

  -- Each file that Undo visits is back in the end if it reports no failure, and one that was back
  -- before stays so.
  pub undo_files-IsBack :
      (walk : Files) (d : S.Disk) (restored : List Text)
      → All (IsReady d) walk
      → (undo_files S root walk (d, restored, none)).2 ≡ none
      → (s : Text) → Q s
      → WasKnown s
      → ((st : FileState) × In (s, st) walk) ⊎ IsBack d s
      → IsBack (undo_files S root walk (d, restored, none)).0 s
  unfolding undo_files
  undo_files-IsBack [] d restored ready well s qs known (inl (st, m)) = absurd m
  undo_files-IsBack [] d restored ready well s qs known (inr back) = back
  undo_files-IsBack ((r, st) ∷ walk) d restored ((q, saved), ready) well s qs known h =
      let w = restore_file S (S.joined root r) st d in
      let (good, e) = undo_files-step r walk restored w well in
      let ready_after =
        All-map (λ f p. (p.0, restore_file-Saved r f.0 st f.1 d q p.0 p.1)) walk ready in
      subst (λ u. IsBack (undo_files S root walk u).0 s) (sym e)
        (undo_files-IsBack walk w.0 (restored ++ r ∷ []) ready_after
          (ap (λ u. (undo_files S root walk u).2) (sym e) ∙ well) s qs known (next w.0 good refl))
    where
      next :
          (after : S.Disk)
          → (restore_file S (S.joined root r) st d).1 ≡ true
          → (restore_file S (S.joined root r) st d).0 ≡ after
          → ((its : FileState) × In (s, its) walk) ⊎ IsBack after s
      next after good e = elim (Bool-cases (r == s)) [
        | inl same ↦
            let same_name = eq_of_beq {j = r} {k = s} same in
            inr (
              subst (λ t. IsBack after t) same_name
                (subst (λ a. IsBack a r) e
                  (restore_file-IsBack r q (subst WasKnown (sym same_name) known) st d saved good)))
        | inr apart ↦ elim h [
          | inl (its, inl here) ↦ cc (apart, ap (λ v. v.0 == s) here, beq_self s)
          | inl (its, inr later) ↦ inl (its, later)
          | inr back ↦ inr (
              ap (λ a. read S a (S.joined root s)) (sym e)
              ∙ ap contents_of (
                  node-restore_file r (S.joined root s) st d
                    (inl (layout.files_apart r s q qs apart)))
              ∙ back)
        ]
      ]
