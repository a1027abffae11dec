-- ===== src/Work/Ledger/Judged.antt =====
-- After a write that gave way, the session has seen the other version.
use be_code_redux.Base.{
  List, [], Bool, true, false, Text, text_keyed, Option, none, some, ok, err, ◌==◌, Bool-cases, inl,
  inr, ◌⊎◌, lookup, lookup-insert, beq_self, ◌≡◌, refl, sym, ap, ◌∙◌, subst,
}
use be_code_redux.Files.{System, Contents, found, gone, unreadable, read}
use be_code_redux.Work.Seen.{note, compared, changed_from, changed}
use be_code_redux.Work.Restore.{nothing_to_keep, on_branch, in_sidecar}
use be_code_redux.Work.Keep.{
  Setting, Attendance, attended, unattended, keep_mine, keep_theirs, Notice, Outcome, Resolved,
  unasked, chosen, resolve, keep_old,
}
use be_code_redux.Work.Ledger.{
  Ledger, is_active, is_change, bytes_of, settled, judged, if_active, on_conflict, has_changed,
}

abbrev pub is_gone : Contents → Bool
is_gone gone = true
is_gone unreadable = false
is_gone (found b) = false

module _ (S : System) (at : Setting) (path : Text) (d : S.Disk) where
  -- A result that decides for the other version comes with the disk as it was.
  abbrev IsUntouched : Resolved S at → Type 0
  IsUntouched (after, r, end) =
      (notices : List Notice) → end ≡ some (ok keep_theirs, notices) → after ≡ d

  unasked-IsUntouched : (o : Outcome S at) → IsUntouched (unasked S at path o)
  unasked-IsUntouched (after, r, none) = λ n h. cc
  unasked-IsUntouched (after, r, some (err e)) = λ n h. cc
  unasked-IsUntouched (after, r, some (ok nothing_to_keep)) = λ n h. cc
  unasked-IsUntouched (after, r, some (ok (on_branch b))) = λ n h. cc
  unasked-IsUntouched (after, r, some (ok (in_sidecar b))) = λ n h. cc

  chosen-IsUntouched : (o : Outcome S at) → IsUntouched (chosen S at path o)
  chosen-IsUntouched (after, r, none) = λ n h. cc
  chosen-IsUntouched (after, r, some (err e)) = λ n h. cc
  chosen-IsUntouched (after, r, some (ok nothing_to_keep)) = λ n h. cc
  chosen-IsUntouched (after, r, some (ok (on_branch b))) = λ n h. cc
  chosen-IsUntouched (after, r, some (ok (in_sidecar b))) = λ n h. cc

  resolve-IsUntouched :
      (ask : Option Bool) (who : Attendance) (r : S.Repo)
      → IsUntouched (resolve S at ask who path d r)
  unfolding resolve
  resolve-IsUntouched (some true) attended r = chosen-IsUntouched (keep_old S at path d r)
  resolve-IsUntouched (some false) attended r = λ n h. refl
  resolve-IsUntouched none attended r = unasked-IsUntouched (keep_old S at path d r)
  resolve-IsUntouched none unattended r = unasked-IsUntouched (keep_old S at path d r)
  resolve-IsUntouched (some true) unattended r = unasked-IsUntouched (keep_old S at path d r)
  resolve-IsUntouched (some false) unattended r = unasked-IsUntouched (keep_old S at path d r)

module _ (hash : Text → Text) (S : System) (at : Setting) (path : Text) (d : S.Disk) where
  -- The disk is as it was, and the ledger is active and has seen the bytes.
  abbrev HasSeen : Text → Ledger → S.Disk → Type 0
  HasSeen bytes l after =
      (after ≡ d) × (is_active l ≡ true) × (lookup path l.seen ≡ some (hash bytes))

  settled-HasSeen :
      (l l' : Ledger) (theirs : Option Text) (o : Resolved S at) (after : S.Disk) (r' : S.Repo)
      (notices : List Notice)
      → is_active l ≡ true
      → IsUntouched S at path d o
      → settled hash S at path theirs l o ≡ (l', after, r', some (ok false, notices))
      → HasSeen (bytes_of theirs) l' after
  settled-HasSeen l l' theirs (a, r, none) after r' notices on same h = cc (ap (λ v. v.3) h)
  settled-HasSeen l l' theirs (a, r, some (err e, n)) after r' notices on same h =
      cc (ap (λ v. v.3) h)
  settled-HasSeen l l' theirs (a, r, some (ok keep_mine, n)) after r' notices on same h =
      cc (ap (λ v. v.3) h)
  settled-HasSeen l l' theirs (a, r, some (ok keep_theirs, n)) after r' notices on same h =
      let own = note hash path (bytes_of theirs) l.seen in
      (
        sym (ap (λ v. v.1) h) ∙ same n refl,
        subst (λ k. is_active k ≡ true) (ap (λ v. v.0) h) on,
        subst (λ k. lookup path k.seen ≡ some (hash (bytes_of theirs))) (ap (λ v. v.0) h)
            (lookup-insert path path (hash (bytes_of theirs)) l.seen ∙ rw (beq_self path) refl),
      )

  abbrev Next : Ledger → S.Disk → Type 0
  Next l' after = (after ≡ d) × (has_changed hash (read S after) path l' ≡ is_gone (read S d path))

  -- With what the file holds as a variable.
  next :
      (l' : Ledger) (after : S.Disk) (c : Contents) (bytes : Text)
      → c ≡ read S d path
      → (c ≡ gone) ⊎ (c ≡ found bytes)
      → HasSeen bytes l' after
      → Next l' after
  unfolding has_changed changed
  next l' after c bytes e which (same, on, has) = (
    same,
    rw on (
        ap (λ a. is_change (changed_from hash (lookup path l'.seen) (read S a path))) same
        ∙ ap (λ k. is_change (changed_from hash k (read S d path))) has
        ∙ ap (λ k. is_change (compared hash (hash bytes) k)) (sym e)
        ∙ told c which
        ∙ ap is_gone e),
  )
    where
      told :
          (c : Contents)
          → (c ≡ gone) ⊎ (c ≡ found bytes)
          → is_change (compared hash (hash bytes) c) ≡ is_gone c
      told gone which = refl
      told unreadable which = refl
      told (found b) (inl h) = cc
      told (found b) (inr h) = let e : b ≡ bytes = cc (h) in rw e (rw (beq_self (hash bytes)) refl)

  judged-Next :
      (ask : Option Bool) (who : Attendance) (l l' : Ledger) (r r' : S.Repo) (after : S.Disk)
      (notices : List Notice) (seen : Option Text) (c : Contents)
      → c ≡ read S d path
      → is_active l ≡ true
      → judged hash S at ask who path l d r (changed_from hash seen c)
        ≡ (l', after, r', some (ok false, notices))
      → Next l' after
  judged-Next ask who l l' r r' after notices none c e on h = cc (ap (λ v. v.3) h)
  judged-Next ask who l l' r r' after notices (some was) unreadable e on h = cc (ap (λ v. v.3) h)
  judged-Next ask who l l' r r' after notices (some was) gone e on h =
      next l' after gone [] e (inl refl) (
        settled-HasSeen l l' none _ after r' notices on (resolve-IsUntouched S at path d ask who r)
          h)
  judged-Next ask who l l' r r' after notices (some was) (found b) e on h =
      elim (Bool-cases (hash b == was)) [
        | inl same ↦ cc (ap (λ v. v.3) (rw same at h))
        | inr differs ↦ next l' after (found b) b e (inr refl) (
            settled-HasSeen l l' (some b) _ after r' notices on
              (resolve-IsUntouched S at path d ask who r) (rw differs at h))
      ]

  -- Where OnConflict abandons a write, the disk is as it was, and the session's next question about
  -- the file finds a change exactly where the file is gone.
  pub on_conflict-next :
      (ask : Option Bool) (who : Attendance) (l l' : Ledger) (r r' : S.Repo) (after : S.Disk)
      (notices : List Notice)
      → on_conflict hash S at ask who path l d r ≡ (l', after, r', some (ok false, notices))
      → (after ≡ d) × (has_changed hash (read S after) path l' ≡ is_gone (read S d path))
  unfolding on_conflict changed
  on_conflict-next ask who l l' r r' after notices h = elim (Bool-cases (is_active l)) [
    | inr e ↦ cc (ap (λ v. v.3) (ap (if_active hash S at ask who path l d r) (sym e) ∙ h))
    | inl e ↦
        judged-Next ask who l l' r r' after notices (lookup path l.seen) (read S d path) refl e
          (ap (if_active hash S at ask who path l d r) (sym e) ∙ h)
  ]
