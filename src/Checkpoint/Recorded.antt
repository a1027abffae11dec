-- ===== src/Checkpoint/Recorded.antt =====
-- Record keeps what is needed to undo, and so does a write that follows it.
use be_code_redux.Base.{
  ℕ, List, [], Bool, true, false, Text, text_keyed, Option, none, some, lookup, lookup-insert_same,
  inr, ◌≡◌, ◌≢◌, refl, sym, ap, ◌∙◌, subst,
}
use be_code_redux.Files.{
  System, stat_of, contents_of, Stat, present, not_there, no_answer, stat, Contents, found, gone,
  unreadable, read, IsLawful,
}
use be_code_redux.Work.Keep.{is_inside}
use be_code_redux.Checkpoint.{
  FileState, Files, Turn, Step, remembered, copied, backed_up, first_change, unless_done,
  if_tracked, record_in,
}
use be_code_redux.Checkpoint.Saved.{
  IsLayout, IsTracked, IsKept, IsGood, moved-IsKept, insert-IsKept, written-IsGood,
}

module _ (S : System) (now : ℕ) (laws : IsLawful S now) (root folder : Text) (Q : Text → Type 0)
    (layout : IsLayout S root folder Q) (start : S.Disk) (r : Text) (q : Q r) where
  abbrev Good : Step S → Type 0
  Good = IsGood S now laws root folder Q layout start r q

  abbrev Kept : Files → S.Disk → Type 0
  Kept = IsKept S now laws root folder Q layout start

  copied-Good :
      (mode : ℕ) (files : Files) (order : List Text) (d : S.Disk) (c : Contents)
      → lookup r files ≡ none
      → Kept files d
      → read S start (S.joined root r) ≡ c
      → Good (
          copied S r
            (record { existed = true; backup = S.joined folder r; mode = mode })
            files
            order
            d
            c)
  copied-Good mode files order d gone new kept holds = (kept, λ h. cc)
  copied-Good mode files order d unreadable new kept holds = (kept, λ h. cc)
  copied-Good mode files order d (found bytes) new kept holds =
      written-IsGood S now laws root folder Q layout start r q mode files order d bytes new kept
        holds

  backed_up-Good :
      (mode : ℕ) (files : Files) (order : List Text) (d : S.Disk)
      → lookup r files ≡ none
      → Kept files d
      → Good (
          backed_up S
            (S.joined root r)
            r
            (record { existed = true; backup = S.joined folder r; mode = mode })
            files
            order
            (S.make_folders d (S.folder_of (S.joined folder r))))
  backed_up-Good mode files order d new kept =
      go (S.make_folders d (S.folder_of (S.joined folder r))) refl
    where
      after : S.Disk
      after = (S.make_folders d (S.folder_of (S.joined folder r))).0

      same : (s : Text) → Q s → S.node after (S.joined root s) ≡ S.node d (S.joined root s)
      same s qs = laws.node-make_folders_other d _ (S.joined root s) (layout.not_above r s q qs)

      all_kept : Kept files after
      all_kept =
          moved-IsKept S now laws root folder Q layout start r q files d after new same
            (λ s qs e m b h. laws.node-make_folders_file d _ (S.joined folder s) b m h) kept

      at_start : read S start (S.joined root r) ≡ read S after (S.joined root r)
      at_start = ap contents_of (
          sym
            (same r q ∙ subst (IsTracked S now laws root folder Q layout start d r) new (kept r q)))

      go :
          (w : S.Disk × Bool)
          → w ≡ S.make_folders d (S.folder_of (S.joined folder r))
          → Good (
              backed_up S
                (S.joined root r)
                r
                (record { existed = true; backup = S.joined folder r; mode = mode })
                files
                order
                w)
      go (a, false) e = (subst (Kept files) (sym (ap (λ v. v.0) e)) all_kept, λ h. cc)
      go (a, true) e =
          subst
            (λ x. Good (
              copied S r (record { existed = true; backup = S.joined folder r; mode = mode }) files
                order x (read S x (S.joined root r))))
            (sym (ap (λ v. v.0) e)) (copied-Good mode files order after _ new all_kept at_start)

  -- A file that was not there
  new-Good :
      (files : Files) (order : List Text) (d : S.Disk)
      → lookup r files ≡ none
      → Kept files d
      → ((m : ℕ) → stat S d (S.joined root r) ≢ present m)
      → Good (remembered S r (record { existed = false; backup = []; mode = 0 }) files order d)
  new-Good files order d new kept not_present =
      let at_start : stat S d (S.joined root r) ≡ stat S start (S.joined root r) =
        ap stat_of (subst (IsTracked S now laws root folder Q layout start d r) new (kept r q)) in
      (
        insert-IsKept S now laws root folder Q layout start r q _ files d d
            (inr (refl, λ m h. not_present m (at_start ∙ h))) (λ s qs apart. kept s qs),
        λ h. (_, lookup-insert_same r _ files),
      )

  first_change-Good :
      (files : Files) (order : List Text) (d : S.Disk) (s : Stat)
      → lookup r files ≡ none
      → Kept files d
      → stat S d (S.joined root r) ≡ s
      → Good (first_change S (S.joined root r) folder r files order d s)
  first_change-Good files order d (present mode) new kept e =
      backed_up-Good mode files order d new kept
  first_change-Good files order d not_there new kept e =
      new-Good files order d new kept (λ m h. cc (e, h))
  first_change-Good files order d no_answer new kept e =
      new-Good files order d new kept (λ m h. cc (e, h))

  unless_done-Good :
      (files : Files) (order : List Text) (d : S.Disk) (o : Option FileState)
      → lookup r files ≡ o
      → Kept files d
      → Good (unless_done S (S.joined root r) folder r files order d o)
  unless_done-Good files order d none new kept = first_change-Good files order d _ new kept refl
  unless_done-Good files order d (some st) new kept = (kept, λ h. (st, new))

  -- Record of a file in a turn whose folder is `folder`.
  pub record_in-Good :
      (t : Turn) (d : S.Disk)
      → t.folder ≡ folder
      → Kept t.files d
      → Good (record_in S root (S.joined root r) t d)
  unfolding record_in
  record_in-Good t d here kept =
      subst (λ o. Good (if_tracked S (S.joined root r) t.folder t.files t.order d (is_inside o) o))
        (sym (layout.relative_joined r q))
        (subst (λ b. Good (if_tracked S (S.joined root r) t.folder t.files t.order d b (some r)))
          (sym (layout.inner r q))
          (subst
            (λ f. Good (unless_done S (S.joined root r) f r t.files t.order d (lookup r t.files)))
            (sym here) (unless_done-Good t.files t.order d _ refl kept)))
