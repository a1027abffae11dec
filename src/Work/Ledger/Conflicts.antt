-- ===== src/Work/Ledger/Conflicts.antt =====
-- When a write goes ahead, and what a session has seen once it does not.
use be_code_redux.Base.{
  List, [], ◌∷◌, Bool, true, false, Text, text_keyed, Option, none, some, ok, err, ◌==◌, Bool-cases,
  Option-cases, inl, inr, ◌⊎◌, lookup, eq_of_beq, ◌≡◌, refl, sym, ap, ◌∙◌, subst,
}
use be_code_redux.Files.{System, found, read, IsLawful}
use be_code_redux.Work.Seen.{compared, changed_from, changed}
use be_code_redux.Work.Restore.{Restore}
use be_code_redux.Work.Keep.{
  Setting, IsPrompt, Attendance, attended, keep_mine, keep_theirs, Notice, kept_at, Resolved,
}
use be_code_redux.Work.Keep.Keeping.{IsRecoverable, IsWarranted, resolve-IsWarranted}
use be_code_redux.Work.Ledger.{Ledger, is_active, settled, judged, if_active, on_conflict}

module _ (hash : Text → Text) (S : System) (at : Setting) (laws : IsLawful S at.now)
    (prompt : IsPrompt at) (path bytes : Text) (d : S.Disk)
    (holds : read S d path ≡ found bytes) where
  -- Why a write may go over these bytes: the hooks are off, the session never saw the file or saw
  -- these bytes last, a person who was there said yes, or the bytes can be had back and the user is told where.
  abbrev pub MayWrite : Option Bool → Attendance → Ledger → S.Disk → S.Repo → List Notice → Type 0
  MayWrite ask who l after r' notices =
      (is_active l ≡ false)
      ⊎ (lookup path l.seen ≡ none)
      ⊎ (lookup path l.seen ≡ some (hash bytes))
      ⊎ ((ask ≡ some true) × (who ≡ attended))
      ⊎ ((to : Restore) × IsRecoverable S at laws prompt path bytes d holds after r' to
          × (notices ≡ kept_at path to ∷ []))

  settled-mine :
      (l l' : Ledger) (theirs : Option Text) (o : Resolved S at) (after : S.Disk) (r : S.Repo)
      (notices : List Notice)
      → settled hash S at path theirs l o ≡ (l', after, r, some (ok true, notices))
      → o ≡ (after, r, some (ok keep_mine, notices))
  settled-mine l l' theirs (d, r, none) after r' notices h = cc
  settled-mine l l' theirs (d, r, some (err e, n)) after r' notices h = cc (ap (λ v. v.3) h)
  settled-mine l l' theirs (d, r, some (ok keep_mine, n)) after r' notices h =
      cc (ap (λ v. v.1) h, ap (λ v. v.2) h, ap (λ v. v.3) h)
  settled-mine l l' theirs (d, r, some (ok keep_theirs, n)) after r' notices h =
      cc (ap (λ v. v.3) h)

  known :
      (ask : Option Bool) (who : Attendance) (l l' : Ledger) (r r' : S.Repo) (after : S.Disk)
      (notices : List Notice) (was : Text)
      → lookup path l.seen ≡ some was
      → judged hash S at ask who path l d r (compared hash was (found bytes))
        ≡ (l', after, r', some (ok true, notices))
      → MayWrite ask who l after r' notices
  known ask who l l' r r' after notices was seen h = elim (Bool-cases (hash bytes == was)) [
    | inl e ↦ inr (inr (inl (seen ∙ ap some (sym (eq_of_beq {j = hash bytes} {k = was} e)))))
    | inr e ↦ inr (
        inr (
          inr (
            resolved (settled-mine l l' (some bytes) _ after r' notices (rw e at h))
              (resolve-IsWarranted S at laws prompt path bytes d holds ask who r))))
  ]
    where
      resolved :
          {o : Resolved S at}
          → o ≡ (after, r', some (ok keep_mine, notices))
          → IsWarranted S at laws prompt path bytes d holds ask who o
          → ((ask ≡ some true) × (who ≡ attended))
            ⊎ ((to : Restore) × IsRecoverable S at laws prompt path bytes d holds after r' to
                × (notices ≡ kept_at path to ∷ []))
      resolved e w =
          subst (IsWarranted S at laws prompt path bytes d holds ask who) e w notices refl

  -- Where OnConflict lets a write go over a file that can be read, the ledger is off, or the session
  -- never saw the file, or what it saw last has the hash of what is there, or a person was there and
  -- said yes, or what is there can be had back and the one notice says where: from the branch that
  -- the snapshot made, where git, asked last, lists the path in it, or from a file at a name that
  -- was free, which holds those bytes. Old copies are taken away less than `keep` after the write of
  -- the new one, or none is.
  pub on_conflict-MayWrite :
      (ask : Option Bool) (who : Attendance) (l l' : Ledger) (r r' : S.Repo) (after : S.Disk)
      (notices : List Notice)
      → on_conflict hash S at ask who path l d r ≡ (l', after, r', some (ok true, notices))
      → MayWrite ask who l after r' notices
  unfolding on_conflict changed
  on_conflict-MayWrite ask who l l' r r' after notices h = elim (Bool-cases (is_active l)) [
    | inr e ↦ inl e
    | inl e ↦ elim (Option-cases (lookup path l.seen)) [
      | inl seen ↦ inr (inl seen)
      | inr (was, seen) ↦ known ask who l l' r r' after notices was seen (
          ap (λ o. judged hash S at ask who path l d r (changed_from hash o (found bytes)))
            (sym seen)
          ∙ ap (λ c. judged hash S at ask who path l d r (changed_from hash (lookup path l.seen) c))
              (sym holds)
          ∙ ap (if_active hash S at ask who path l d r) (sym e)
          ∙ h)
    ]
  ]
