-- ===== src/Checkpoint/Saved.antt =====
-- While a turn changes files through Record, what each file was at its start is kept.
use be_code_redux.Base.{
  ℕ, List, Bool, true, false, Text, text_keyed, ◌==◌, Option, none, some, lookup, insert,
  lookup-insert_same, lookup-insert_apart, eq_of_beq, Bool-cases, inl, inr, ◌⊎◌, ◌≡◌, ◌≢◌, refl,
  sym, ap, ◌∙◌, subst,
}
use be_code_redux.Files.{System, present, stat, found, read, is_under, IsLawful, file}
use be_code_redux.Work.Keep.{is_inside}
use be_code_redux.Checkpoint.{FileState, Files, Step, written}

-- The names `Q` stand for files of the workspace that have nothing to do with each other or with
-- their copies in the turn's folder.
pub record IsLayout (S : System) (root folder : Text) (Q : Text → Type 0) : Type 0 where
  pub relative_joined : (r : Text) → Q r → S.relative root (S.joined root r) ≡ some r
  pub inner : (r : Text) → Q r → is_inside (some r) ≡ true
  pub files_apart :
      (r s : Text)
      → Q r
      → Q s
      → (r == s) ≡ false
      → is_under (S.joined root r) (S.joined root s) ≡ false
  pub copies_apart :
      (r s : Text) → Q r → Q s → (r == s) ≡ false → (S.joined folder r == S.joined folder s) ≡ false
  pub copy_apart : (r s : Text) → Q r → Q s → is_under (S.joined folder r) (S.joined root s) ≡ false
  pub file_apart : (r s : Text) → Q r → Q s → (S.joined root r == S.joined folder s) ≡ false
  pub not_above :
      (r s : Text)
      → Q r
      → Q s
      → is_under (S.joined root s) (S.folder_of (S.joined folder r)) ≡ false
  pub not_above_file :
      (r s : Text) → Q r → Q s → is_under (S.joined root s) (S.folder_of (S.joined root r)) ≡ false
  pub outside : (r : Text) → Q r → is_under folder (S.joined root r) ≡ false

module _ (S : System) (now : ℕ) (laws : IsLawful S now) (root folder : Text) (Q : Text → Type 0)
    (layout : IsLayout S root folder Q) (start : S.Disk) where
  abbrev pub path_of : Text → Text
  path_of r = S.joined root r

  abbrev pub copy_path : Text → Text
  copy_path r = S.joined folder r

  -- A file that was there is in its copy; one that was not was not there.
  abbrev pub IsSaved : S.Disk → Text → FileState → Type 0
  IsSaved d r st =
      ((st.existed ≡ true)
        × (st.backup ≡ copy_path r)
        × (b : Text) × (read S start (path_of r) ≡ found b)
        × (m : ℕ) × (S.node d (copy_path r) ≡ file m b))
      ⊎ ((st.existed ≡ false) × ((m : ℕ) → stat S start (path_of r) ≢ present m))

  -- A file that Record has not seen is as at the start; one that it has seen is saved.
  abbrev pub IsTracked : S.Disk → Text → Option FileState → Type 0
  IsTracked d r none = S.node d (path_of r) ≡ S.node start (path_of r)
  IsTracked d r (some st) = IsSaved d r st

  abbrev pub IsKept : Files → S.Disk → Type 0
  IsKept files d = (r : Text) → Q r → IsTracked d r (lookup r files)

  -- A change of the disk that leaves copies and files alone.
  pub IsTracked-moved :
      (d after : S.Disk) (r : Text) (o : Option FileState)
      → ((m : ℕ) (b : Text)
          → S.node d (copy_path r) ≡ file m b
          → S.node after (copy_path r) ≡ file m b)
      → S.node after (path_of r) ≡ S.node d (path_of r)
      → IsTracked d r o
      → IsTracked after r o
  IsTracked-moved d after r none copies same t = same ∙ t
  IsTracked-moved d after r (some st) copies same (inl (e, p, b, h, m, n)) =
      inl (e, p, b, h, m, copies m b n)
  IsTracked-moved d after r (some st) copies same (inr t) = inr t

  module _ (r : Text) (q : Q r) where
    -- Record gives the file a state that is saved.
    pub insert-IsKept :
        (st : FileState) (files : Files) (d after : S.Disk)
        → IsSaved after r st
        → ((s : Text) → Q s → (r == s) ≡ false → IsTracked after s (lookup s files))
        → IsKept (insert r st files) after
    insert-IsKept st files d after saved others s qs = elim (Bool-cases (r == s)) [
      | inr e ↦ subst (IsTracked after s) (sym (lookup-insert_apart r s st files e)) (others s qs e)
      | inl e ↦
          subst (λ t. IsTracked after t (lookup t (insert r st files)))
            (eq_of_beq {j = r} {k = s} e)
            (subst (IsTracked after r) (sym (lookup-insert_same r st files)) saved)
    ]

    -- The files stay as they are and so do the copies of the others.
    pub moved-IsKept :
        (files : Files) (d after : S.Disk)
        → lookup r files ≡ none
        → ((s : Text) → Q s → S.node after (path_of s) ≡ S.node d (path_of s))
        → ((s : Text)
            → Q s
            → (r == s) ≡ false
            → (m : ℕ) (b : Text) → S.node d (copy_path s) ≡ file m b
            → S.node after (copy_path s) ≡ file m b)
        → IsKept files d
        → IsKept files after
    moved-IsKept files d after new same copies kept s qs = elim (Bool-cases (r == s)) [
      | inr e ↦ IsTracked-moved d after s (lookup s files) (copies s qs e) (same s qs) (kept s qs)
      | inl e ↦
          subst (λ t. IsTracked after t (lookup t files)) (eq_of_beq {j = r} {k = s} e)
            (subst (IsTracked after r) (sym new) (same r q ∙ subst (IsTracked d r) new (kept r q)))
    ]

    -- The starts are kept, and that of the file is if all went well.
    abbrev pub IsGood : Step S → Type 0
    IsGood (files, order, d, went_well) =
        IsKept files d × (went_well ≡ true → (st : FileState) × (lookup r files ≡ some st))

    pub written-IsGood :
        (mode : ℕ) (files : Files) (order : List Text) (d : S.Disk) (bytes : Text)
        → lookup r files ≡ none
        → IsKept files d
        → read S start (path_of r) ≡ found bytes
        → IsGood (
            written S r
              (record { existed = true; backup = copy_path r; mode = mode })
              files
              order
              (S.write d (copy_path r) bytes 384))
    written-IsGood mode files order d bytes new kept holds =
        go (S.write d (copy_path r) bytes 384) refl
      where
        after : S.Disk
        after = (S.write d (copy_path r) bytes 384).0

        same : (s : Text) → Q s → S.node after (path_of s) ≡ S.node d (path_of s)
        same s qs =
            laws.node-write_other d (copy_path r) bytes 384 (path_of s) (layout.copy_apart r s q qs)

        copies :
            (s : Text)
            → Q s
            → (r == s) ≡ false
            → (m : ℕ) (b : Text) → S.node d (copy_path s) ≡ file m b
            → S.node after (copy_path s) ≡ file m b
        copies s qs e m b h =
            laws.node-write_file d (copy_path r) bytes 384 (copy_path s) b m
              (layout.copies_apart r s q qs e) h

        all_kept : IsKept files after
        all_kept = moved-IsKept files d after new same copies kept

        st : FileState
        st = record { existed = true; backup = copy_path r; mode = mode }

        go :
            (w : S.Disk × Bool)
            → w ≡ S.write d (copy_path r) bytes 384
            → IsGood (written S r st files order w)
        go (a, false) e = (subst (IsKept files) (sym (ap (λ v. v.0) e)) all_kept, λ h. cc)
        go (a, true) e =
            let (m, n) = laws.node-write d (copy_path r) bytes 384 (sym (ap (λ v. v.1) e)) in
            (
              subst (IsKept (insert r st files)) (sym (ap (λ v. v.0) e)) (
                  insert-IsKept st files d after (inl (refl, refl, bytes, holds, m, n))
                    (λ s qs apart. all_kept s qs)),
              λ h. (st, lookup-insert_same r st files),
            )
