-- ===== src/Engine/Status/Names.antt =====
-- OwnerOf reads only the ids and the owners of a walk.
use be_code_redux.Base.{
  ℕ, zero, suc, List, [], ◌∷◌, Text, text_keyed, nat_keyed, Option, none, some, length, get_elem?,
  set, take, ◌≡◌, refl, ap, ◌∙◌, inl, inr, Option-cases, some-injective,
}
use be_code_redux.Paths.{split, join}
use be_code_redux.Engine.Tree.{NodeInfo, dot, find}
use be_code_redux.Engine.Status.{owner_at, own_owner, owner_up, owner_of}

abbrev pub SameNames : List NodeInfo → List NodeInfo → Type 0
SameNames [] [] = Unit
SameNames [] (m ∷ ms) = ⊥
SameNames (n ∷ ns) [] = ⊥
SameNames (n ∷ ns) (m ∷ ms) = (n.id ≡ m.id) × (n.owner ≡ m.owner) × SameNames ns ms

SameNames-self : (ns : List NodeInfo) → SameNames ns ns
SameNames-self [] = tt
SameNames-self (n ∷ ns) = (refl, refl, SameNames-self ns)

SameNames-set :
    (ns : List NodeInfo) (i : ℕ) (n x : NodeInfo)
    → get_elem? ns i ≡ some n
    → n.id ≡ x.id
    → n.owner ≡ x.owner
    → SameNames ns (set ns i x)
SameNames-set [] i n x g e o = cc
SameNames-set (m ∷ ns) zero n x g e o =
    let k : m ≡ n = some-injective g in
    (ap (λ z. z.id) k ∙ e, ap (λ z. z.owner) k ∙ o, SameNames-self ns)
SameNames-set (m ∷ ns) (suc i) n x g e o = (refl, refl, SameNames-set ns i n x g e o)

find-SameNames : (id : Text) (ns ms : List NodeInfo) → SameNames ns ms → find id ns ≡ find id ms
unfolding find
find-SameNames id [] [] h = refl
find-SameNames id [] (m ∷ ms) h = absurd h
find-SameNames id (n ∷ ns) [] h = absurd h
find-SameNames id (n ∷ ns) (m ∷ ms) (e, o, h) =
    let ih = find-SameNames id ns ms h in
    elim (Option-cases (find id ms)) [
      | inl k ↦ rw (ih ∙ k) (rw k (rw e refl))
      | inr (i, k) ↦ rw (ih ∙ k) (rw k refl)
    ]

owner_at-SameNames :
    (ns ms : List NodeInfo) (o : Option ℕ) → SameNames ns ms → owner_at ns o ≡ owner_at ms o
owner_at-SameNames ns ms none h = refl
owner_at-SameNames [] [] (some i) h = refl
owner_at-SameNames [] (m ∷ ms) (some i) h = absurd h
owner_at-SameNames (n ∷ ns) [] (some i) h = absurd h
owner_at-SameNames (n ∷ ns) (m ∷ ms) (some zero) (e, o, h) = o
owner_at-SameNames (n ∷ ns) (m ∷ ms) (some (suc i)) (e, o, h) = owner_at-SameNames ns ms (some i) h

own_owner-SameNames :
    (ns ms : List NodeInfo) (id : Text) → SameNames ns ms → own_owner ns id ≡ own_owner ms id
unfolding own_owner
own_owner-SameNames ns ms id h =
    owner_at-SameNames ns ms (find id ns) h ∙ ap (owner_at ms) (find-SameNames id ns ms h)

owner_up-SameNames :
    (ns ms : List NodeInfo) (parts : List Text) (i : ℕ)
    → SameNames ns ms
    → owner_up ns parts i ≡ owner_up ms parts i
unfolding owner_up
owner_up-SameNames ns ms parts zero h = refl
owner_up-SameNames ns ms parts (suc i) h =
    rw (owner_up-SameNames ns ms parts i h)
      (rw (own_owner-SameNames ns ms (join dot (take (suc i) parts)) h) refl)

-- A write that keeps a node's id and owner keeps every owner.
pub owner_of-set :
    (ns : List NodeInfo) (i : ℕ) (n x : NodeInfo) (id : Text)
    → get_elem? ns i ≡ some n
    → n.id ≡ x.id
    → n.owner ≡ x.owner
    → owner_of ns id ≡ owner_of (set ns i x) id
unfolding owner_of
owner_of-set ns i n x id g e o =
    owner_up-SameNames ns (set ns i x) (split dot id) (length (split dot id))
      (SameNames-set ns i n x g e o)
