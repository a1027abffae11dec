-- ===== src/Work/Keep/Copying.antt =====
-- The copy beside a file: its name was free, it holds the file's bytes, and the old copies that are
-- taken away after it are not it.
use be_code_redux.Base.{
  ℕ, zero, suc, ◌+◌, ◌≤◌, ◌<◌, List, [], ◌∷◌, ◌++◌, Bool, true, false, not, ◌||◌, Text, text_keyed,
  ◌==◌, nat_keyed, Option, none, some, if◌then◌else◌, ok, ltb, eq_of_beq, Bool-cases, inl, inr, ◌⊎◌,
  some-injective, ok-injective, ◌≡◌, refl, sym, ap, ◌∙◌, subst, arith,
}
use be_code_redux.Files.{
  System, contents_of, Stat, present, not_there, no_answer, stat, found, read, Entry, IsLawful,
  file,
}
use be_code_redux.Work.Git.{candidate}
use be_code_redux.Work.Restore.{
  Restore, in_sidecar, sidecar_mark, contains, is_free, free_name, is_old, one_more, prune_entries,
  prune_listed, prune_sidecars, prune_beside, copy_to, copy_of, sidecar,
}

module _ (S : System) where
  is_free-not_there : (s : Stat) → is_free s ≡ true → s ≡ not_there
  is_free-not_there (present mode) h = cc
  is_free-not_there not_there h = refl
  is_free-not_there no_answer h = cc

  free_name-not_there :
      (fuel : ℕ) (d : S.Disk) (base : ℕ → Text) (i : ℕ) (name : Text)
      → free_name S fuel d base i ≡ some name
      → stat S d name ≡ not_there
  unfolding free_name
  free_name-not_there zero d base i name h = cc
  free_name-not_there (suc fuel) d base i name h =
      elim (Bool-cases (is_free (stat S d (candidate base i)))) [
        | inl e ↦
            subst (λ n. stat S d n ≡ not_there) (some-injective (rw e at h)) (is_free-not_there _ e)
        | inr e ↦ free_name-not_there fuel d base (i + 1) name (rw e at h)
      ]

-- The file that is not to go: it holds its bytes, and was written when the clock showed `now` or
-- after. The clock shows `later` when old copies are taken away.
module _ (S : System) (now later keep : ℕ) (laws : IsLawful S now) (path : Text) (m : ℕ)
    (its : Text) where
  -- The file is there, and is not old enough to be taken away.
  abbrev IsFresh : S.Disk → Type 0
  IsFresh d = (is_old S later keep (S.modified d path) ≡ false) × (S.node d path ≡ file m its)

  abbrev pruned : Text → S.Disk → ℕ → Bool → S.Disk × ℕ
  pruned at d n kept =
      if kept then (d, n) else (let (after, r) = S.remove d at in (after, one_more S r n))

  pruned-keeps :
      (at : Text) (d : S.Disk) (n : ℕ) (rest : Bool)
      → IsFresh d
      → IsFresh (pruned at d n (rest || not (is_old S later keep (S.modified d at)))).0
  pruned-keeps at d n true fresh = fresh
  pruned-keeps at d n false (fresh, h) = elim (Bool-cases (is_old S later keep (S.modified d at))) [
    | inr e ↦ rw e (fresh, h)
    | inl e ↦
        let apart : (at == path) ≡ false = elim (Bool-cases (at == path)) [
          | inl same ↦ cc (
            e,
            fresh,
            ap (λ q. is_old S later keep (S.modified d q)) (eq_of_beq {j = at} {k = path} same),
          )
          | inr differs ↦ differs
        ] in
        rw e (
          ap (is_old S later keep) (laws.modified-remove_file d at path its m apart h) ∙ fresh,
          laws.node-remove_file d at path its m apart h,
        )
  ]

  prune_entries-keeps :
      (folder : Text) (entries : List Entry) (d : S.Disk) (n : ℕ)
      → IsFresh d
      → S.node (prune_entries S later keep folder entries (d, n)).0 path ≡ file m its
  unfolding prune_entries
  prune_entries-keeps folder [] d n fresh = fresh.1
  prune_entries-keeps folder (e ∷ entries) d n fresh = prune_entries-keeps folder entries _ _ (
      pruned-keeps (S.joined folder e.name) d n (e.is_folder || not (contains e.name sidecar_mark))
        fresh)

  prune_beside-keeps :
      (near : Text) (d : S.Disk)
      → (keep ≡ 0) ⊎ (later < now + keep)
      → ((t : ℕ) → S.modified d path ≡ some t → now ≤ t)
      → S.node d path ≡ file m its
      → S.node (prune_beside S later keep near d) path ≡ file m its
  unfolding prune_sidecars
  prune_beside-keeps near d prompt recent h = elim (Bool-cases (ltb 0 keep)) [
    | inr e ↦ rw e h
    | inl e ↦ rw e (
        listed (S.list_folder d (S.folder_of near))
          (fresh_of (S.modified d path) prompt recent e, h))
  ]
    where
      fresh_of :
          (o : Option ℕ)
          → (keep ≡ 0) ⊎ (later < now + keep)
          → ((t : ℕ) → o ≡ some t → now ≤ t)
          → ltb 0 keep ≡ true
          → is_old S later keep o ≡ false
      fresh_of none prompt recent e = refl
      fresh_of (some t) prompt recent e = ground (arith, recent t refl)

      listed :
          (entries : Option (List Entry))
          → IsFresh d
          → S.node (prune_listed S later keep (S.folder_of near) d entries).0 path ≡ file m its
      listed none fresh = fresh.1
      listed (some entries) fresh = prune_entries-keeps (S.folder_of near) entries d 0 fresh

module _ (S : System) (now later keep : ℕ) (stamp : ℕ → Text) (laws : IsLawful S now)
    (prompt : (keep ≡ 0) ⊎ (later < now + keep)) where
  -- The disk `d` had nothing at the name, and `after` has the bytes there.
  abbrev pub IsCopy : Text → S.Disk → S.Disk → Text → Type 0
  IsCopy bytes d after name = (stat S d name ≡ not_there) × (read S after name ≡ found bytes)

  copy_to-IsCopy :
      (path bytes : Text) (d : S.Disk) (o : Option Text) (after : S.Disk) (kept : Restore)
      → ((name : Text) → o ≡ some name → stat S d name ≡ not_there)
      → copy_to S later keep stamp path bytes d o ≡ (after, some (ok kept))
      → (name : Text) × (kept ≡ in_sidecar name) × IsCopy bytes d after name
  copy_to-IsCopy path bytes d none after kept free h = cc
  copy_to-IsCopy path bytes d (some name) after kept free h =
      elim (Bool-cases (S.write d name bytes 384).1) [
        | inr e ↦ cc (ap (λ r. r.1) (rw e at h))
        | inl e ↦
            let same_disk = ap (λ r. r.0) (rw e at h) in
            let same_kept = ok-injective (some-injective (ap (λ r. r.1) (rw e at h))) in
            let (m, holds) = laws.node-write d name bytes 384 e in
            (
              name,
              sym same_kept,
              (
                free name refl,
                ap (λ s. read S s name) (sym same_disk)
                    ∙ ap contents_of (
                        prune_beside-keeps S now later keep laws name m bytes path
                          (S.write d name bytes 384).0 prompt
                          (λ t. laws.modified-write d name bytes 384 t e) holds),
              ),
            )
      ]

  pub sidecar-IsCopy :
      (fuel : ℕ) (path bytes : Text) (d after : S.Disk) (kept : Restore)
      → read S d path ≡ found bytes
      → sidecar S later keep stamp fuel path d ≡ (after, some (ok kept))
      → (name : Text) × (kept ≡ in_sidecar name) × IsCopy bytes d after name
  unfolding sidecar
  sidecar-IsCopy fuel path bytes d after kept holds h =
      copy_to-IsCopy path bytes d _ after kept
        (λ name. free_name-not_there S fuel d (λ i. path ++ sidecar_mark ++ stamp i) 0 name)
        (ap (copy_of S later keep stamp fuel path d) (sym holds) ∙ h)
