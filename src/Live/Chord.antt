-- ===== src/Live/Chord.antt =====
-- internal/live/chord.go: the detach chord in a stream of keys. Times are in nanoseconds.
use be_code_redux.Base.{
  ℕ, ◌-◌, List, [], ◌∷◌, Bool, true, false, ◌||◌, nat_keyed, ◌==◌, eq_of_beq, if◌then◌else◌, ltb,
  ◌≡◌, ◌≢◌, ◌≤◌, ◌<◌, refl, sym, subst, arith, Bool-cases, inl, inr, ◌⊎◌,
}

pub data Action : Type 0 where
  action_none action_detach : Action

abbrev pub chord_key : ℕ
chord_key = 29

abbrev pub detach_key : ℕ
detach_key = 100

abbrev pub chord_window : ℕ
chord_window = 1_000_000_000

pub record Chord : Type 0 where
  pub pending : Bool
  pub since : ℕ

-- What Feed leaves and returns.
pub record Fed : Type 0 where
  pub chord : Chord
  pub forward : List ℕ
  pub act : Action

-- `forward` is written front to back.
abbrev pub forwarding : ℕ → Fed → Fed
forwarding k r = record r { forward = k ∷ r.forward }

unfoldable pub feed : Chord → List ℕ → ℕ → Fed
feed c [] now = record { chord = c; forward = []; act = action_none }
feed c (k ∷ ks) now =
    let calm : Chord = record c { pending = false } in
    let started = feed (record { pending = true; since = now }) ks now in
    let plain = feed calm ks now in
    let taken = if k == chord_key then started else forwarding k plain in
    if c.pending
    then if ltb chord_window (now - c.since)
      then forwarding chord_key taken
      else if (k == detach_key) || (k == chord_key)
      then record { chord = calm; forward = []; act = action_detach }
      else forwarding chord_key taken
    else taken

-- How a stretch of keys ends: with no chord begun, with Ctrl+] alone, or with a detach.
pub data End : Type 0 where
  calm waiting left : End

-- What a stretch of keys is taken for: a key that is not Ctrl+] is forwarded, Ctrl+] waits for the
-- next, and the two are forwarded unless that is `d` or Ctrl+], which detaches; what is behind a
-- detach is not read.
pub data Keys : List ℕ → List ℕ → End → Type 0 where
  done : Keys [] [] calm
  begun : Keys (29 ∷ []) [] waiting
  plain :
      (k : ℕ) (b forward : List ℕ) (e : End)
      → k ≢ 29
      → Keys b forward e
      → Keys (k ∷ b) (k ∷ forward) e
  literal :
      (k : ℕ) (b forward : List ℕ) (e : End)
      → k ≢ 100
      → k ≢ 29
      → Keys b forward e
      → Keys (29 ∷ k ∷ b) (29 ∷ k ∷ forward) e
  detach : (k : ℕ) (b : List ℕ) → (k ≡ 100) ⊎ (k ≡ 29) → Keys (29 ∷ k ∷ b) [] left

-- The action, and the chord that the next call finds.
abbrev pub IsLeft : ℕ → Fed → End → Type 0
IsLeft now r calm = (r.act ≡ action_none) × (r.chord.pending ≡ false)
IsLeft now r waiting = (r.act ≡ action_none) × (r.chord.pending ≡ true) × (r.chord.since ≡ now)
IsLeft now r left = (r.act ≡ action_detach) × (r.chord.pending ≡ false)

-- What the chord of an earlier call makes of the keys of this one.
pub data Reads (c : Chord) (now : ℕ) (b : List ℕ) (r : Fed) (e : End) : Type 0 where
  afresh : c.pending ≡ false → Keys b r.forward e → Reads c now b r e
  in_time :
      c.pending ≡ true
      → now - c.since ≤ 1_000_000_000
      → Keys (29 ∷ b) r.forward e
      → Reads c now b r e
  too_late :
      (forward : List ℕ)
      → c.pending ≡ true
      → 1_000_000_000 < now - c.since
      → r.forward ≡ 29 ∷ forward
      → Keys b forward e
      → Reads c now b r e

not_key : (k n : ℕ) → (k == n) ≡ false → k ≢ n
not_key k n h = ground arith

ends : (k : ℕ) → ((k == detach_key) || (k == chord_key)) ≡ true → (k ≡ 100) ⊎ (k ≡ 29)
ends k h = ground arith

others :
    (k : ℕ)
    → ((k == detach_key) || (k == chord_key)) ≡ false
    → (k ≢ 100) × ((k == chord_key) ≡ false)
others k h = (ground arith, ground arith)

module _ (now : ℕ) where
  abbrev Scans : List ℕ → Fed → Type 0
  Scans b r = (e : End) × IsLeft now r e × Keys b r.forward e

  abbrev started : Chord
  started = record { pending = true; since = now }

  abbrev calmed : ℕ → Chord
  calmed s = record { pending = false; since = s }

  abbrev taken : ℕ → ℕ → List ℕ → Fed
  taken s k ks =
      if k == chord_key then feed started ks now else forwarding k (feed (calmed s) ks now)

  IsLeft-forwarding : (k : ℕ) (r : Fed) (e : End) → IsLeft now r e → IsLeft now (forwarding k r) e
  IsLeft-forwarding k r calm h = h
  IsLeft-forwarding k r waiting h = h
  IsLeft-forwarding k r left h = h

  -- A key that no chord waits for.
  taken-Scans :
      (s k : ℕ) (ks : List ℕ)
      → Scans (29 ∷ ks) (feed started ks now)
      → Scans ks (feed (calmed s) ks now)
      → Scans (k ∷ ks) (taken s k ks)
  taken-Scans s k ks on (e, l, keys) = elim (Bool-cases (k == chord_key)) [
    | inl h ↦
        rw h (
          subst (λ j. Scans (j ∷ ks) (feed started ks now)) (sym (eq_of_beq {j = k} {k = 29} h)) on)
    | inr h ↦
        rw h (
          e,
          IsLeft-forwarding k (feed (calmed s) ks now) e l,
          plain k ks _ e (not_key k 29 h) keys,
        )
  ]

  abbrev pressed : ℕ → ℕ → List ℕ → Fed
  pressed s k ks =
      if (k == detach_key) || (k == chord_key)
      then record { chord = calmed s; forward = []; act = action_detach }
      else forwarding chord_key (taken s k ks)

  -- The key behind Ctrl+].
  pressed-Scans :
      (s k : ℕ) (ks : List ℕ)
      → Scans ks (feed (calmed s) ks now)
      → Scans (29 ∷ k ∷ ks) (pressed s k ks)
  pressed-Scans s k ks (e, l, keys) = elim (Bool-cases ((k == detach_key) || (k == chord_key))) [
    | inl h ↦ rw h (left, (refl, refl), detach k ks (ends k h))
    | inr h ↦
        let (other, h29) = others k h in
        rw (h, h29)
          (
            e,
            IsLeft-forwarding chord_key (forwarding k (feed (calmed s) ks now)) e
                (IsLeft-forwarding k (feed (calmed s) ks now) e l),
            literal k ks _ e other (not_key k 29 h29) keys,
          )
  ]

  feed-Scans :
      (b : List ℕ)
      → ((s : ℕ) → Scans b (feed (calmed s) b now)) × Scans (29 ∷ b) (feed started b now)
  unfolding feed
  feed-Scans [] = (λ s. (calm, (refl, refl), done), (waiting, (refl, refl, refl), begun))
  feed-Scans (k ∷ ks) =
      let (plainly, on) = feed-Scans ks in
      let soon : ltb chord_window (now - now) ≡ false = ground arith in
      (λ s. taken-Scans s k ks on (plainly s), rw soon (pressed-Scans now k ks (plainly now)))

abbrev pub IsRead : Chord → ℕ → List ℕ → Fed → Type 0
IsRead c now b r = (e : End) × IsLeft now r e × Reads c now b r e

key-IsRead :
    (pending : Bool) (since k : ℕ) (ks : List ℕ) (now : ℕ)
    → IsRead
        (record { pending = pending; since = since })
        now
        (k ∷ ks)
        (feed (record { pending = pending; since = since }) (k ∷ ks) now)
unfolding feed
key-IsRead false since k ks now =
    let (plainly, on) = feed-Scans now ks in
    let (e, l, keys) = taken-Scans now since k ks on (plainly since) in (e, l, afresh refl keys)
key-IsRead true since k ks now =
    let (plainly, on) = feed-Scans now ks in
    elim (Bool-cases (ltb chord_window (now - since))) [
      | inl late ↦
          let (e, l, keys) = taken-Scans now since k ks on (plainly since) in
          rw late (
            e,
            IsLeft-forwarding now 29 (taken now since k ks) e l,
            too_late (taken now since k ks).forward refl (ground arith) refl keys,
          )
      | inr soon ↦
          let (e, l, keys) = pressed-Scans now since k ks (plainly since) in
          rw soon (e, l, in_time refl (ground arith) keys)
    ]

-- Feed takes a call's keys for what the earlier keys leave them to be: with no chord pending they
-- are read afresh; with one that is at most a second old, as if Ctrl+] stood before them; with an
-- older one Ctrl+] is forwarded and they are read afresh. It forwards the keys that are no chord,
-- reports a detach exactly where one is read, and leaves a chord pending, begun now, exactly where
-- Ctrl+] is last. A call without a key leaves all as it is.
pub feed-Keys :
    (c : Chord) (b : List ℕ) (now : ℕ)
    → ((b ≡ []) × (feed c b now ≡ record { chord = c; forward = []; act = action_none }))
      ⊎ ((b ≢ []) × IsRead c now b (feed c b now))
unfolding feed
feed-Keys c [] now = inl (refl, refl)
feed-Keys c (k ∷ ks) now = inr (λ h. cc (h), key-IsRead c.pending c.since k ks now)
