-- ===== src/Files/Memory.antt =====
-- A system whose disk is a list of files with their modes, bytes and times, at a fixed time.
use mathlib.Core.List.{reverse}
use be_code_redux.Base.{
  ℕ, ◌+◌, List, [], ◌∷◌, ◌++◌, true, false, Text, codes, text_keyed, ◌==◌, Option, none, some,
  has_prefix, if◌then◌else◌, Assoc, lookup, insert, erase, lookup-insert_same, lookup-insert_apart,
  lookup-erase_same, lookup-erase_apart, drop, length, ◌≡◌, ap, sym, ◌∙◌, refl, arith, Bool-cases,
  inl, inr, eq_of_beq, some-injective,
}
use be_code_redux.Paths.{slash, split, join}
use be_code_redux.Files.{
  Node, file, absent, Removal, removed, missing, Entry, System, is_under, IsLawful,
}

pub record Stored : Type 0 where
  pub mode : ℕ
  pub bytes : Text
  pub time : ℕ

abbrev pub Disk : Type 0
Disk = Assoc Text Stored

abbrev pub named : Option Stored → Node
named none = absent
named (some f) = file f.mode f.bytes

abbrev taken : Text → Disk → Option Stored → Disk × Removal
taken path d none = (d, missing)
taken path d (some f) = (erase path d, removed)

unfoldable pub without : Text → Disk → Disk
without folder [] = []
without folder ((at, f) ∷ d) =
    let rest = without folder d in if is_under folder at then rest else (at, f) ∷ rest

unfoldable pub children : Text → Disk → List Entry
children folder [] = []
children folder ((at, f) ∷ d) =
    let rest = children folder d in
    if has_prefix at (folder ++ slash ∷ [])
    then record { name = drop (length folder + 1) at; is_folder = false } ∷ rest
    else rest

abbrev but_last : List Text → List Text
but_last [] = []
but_last (x ∷ xs) = reverse xs

abbrev last_of : List Text → Text
last_of [] = []
last_of (x ∷ xs) = x

abbrev time_of : Option Stored → Option ℕ
time_of none = none
time_of (some f) = some f.time

abbrev below : Text → Text → Text
below root path =
    if has_prefix path (root ++ slash ∷ [])
    then drop (length root + 1) path
    else codes "../" ++ path

-- Without a git program every run of it fails.
abbrev pub no_git : List Text → Option Text
no_git arguments = none

abbrev pub memory_system : (List Text → Option Text) → ℕ → System
memory_system git now = record {
  Disk = Disk;
  Repo = Unit {0};
  node = λ d path. named (lookup path d);
  write = λ d path bytes mode.
      (insert path (record { mode = mode; bytes = bytes; time = now }) d, true);
  remove = λ d path. taken path d (lookup path d);
  make_folders = λ d path. (d, true);
  remove_tree = λ d folder. without folder d;
  list_folder = λ d folder. some (children folder d);
  modified = λ d path. time_of (lookup path d);
  git = λ d r variables arguments. (tt, git arguments);
  folder_of = λ path. join slash (but_last (reverse (split slash path)));
  base_of = λ path. last_of (reverse (split slash path));
  joined = λ folder name. folder ++ slash ∷ name;
  relative = λ root path. some (below root path);
}

lookup-taken_apart :
    (d : Disk) (path other : Text) (o : Option Stored)
    → (path == other) ≡ false
    → lookup other (taken path d o).0 ≡ lookup other d
lookup-taken_apart d path other none apart = refl
lookup-taken_apart d path other (some f) apart = lookup-erase_apart path other d apart

lookup-taken_same :
    (d : Disk) (path : Text) (o : Option Stored)
    → lookup path d ≡ o
    → lookup path (taken path d o).0 ≡ none
lookup-taken_same d path none h = h
lookup-taken_same d path (some f) h = lookup-erase_same path d

lookup-without :
    (folder other : Text) (d : Disk)
    → is_under folder other ≡ false
    → lookup other (without folder d) ≡ lookup other d
unfolding without lookup
lookup-without folder other [] h = refl
lookup-without folder other ((at, f) ∷ d) h = elim (Bool-cases (is_under folder at)) [
  | inl e ↦
      let other_file : (at == other) ≡ false = elim (Bool-cases (at == other)) [
        | inl same ↦ cc (e, h, ap (is_under folder) (eq_of_beq {j = at} {k = other} same))
        | inr differs ↦ differs
      ] in
      rw (e, other_file) (lookup-without folder other d h)
  | inr e ↦ rw e (rw (lookup-without folder other d h) refl)
]

is_under-apart : (folder path : Text) → is_under folder path ≡ false → (folder == path) ≡ false
is_under-apart folder path h = elim (Bool-cases (folder == path)) [
  | inl same ↦ let under : is_under folder path ≡ true = rw same refl in cc (h, under)
  | inr differs ↦ differs
]

pub memory_system-IsLawful :
    (git : List Text → Option Text) (now : ℕ) → IsLawful (memory_system git now) now
memory_system-IsLawful git now = record {
  node-write = λ d path bytes mode h. (mode, ap named (lookup-insert_same path _ d));
  node-write_other = λ d path bytes mode other e.
      ap named (lookup-insert_apart path other _ d (is_under-apart path other e));
  node-write_file =
      λ d path bytes mode other its m e h. ap named (lookup-insert_apart path other _ d e) ∙ h;
  modified-write = λ d path bytes mode t h e. omega (
    arith,
    some-injective (
        sym (
          ap time_of
            (lookup-insert_same path (record { mode = mode; bytes = bytes; time = now }) d))
        ∙ e),
  );
  node-remove = λ d path h. ap named (lookup-taken_same d path (lookup path d) refl);
  node-remove_missing = λ d path h. ap named (lookup-taken_same d path (lookup path d) refl);
  node-remove_other = λ d path other e.
      ap named (lookup-taken_apart d path other (lookup path d) (is_under-apart path other e));
  node-remove_file =
      λ d path other its m e h. ap named (lookup-taken_apart d path other (lookup path d) e) ∙ h;
  modified-remove_file =
      λ d path other its m e h. ap time_of (lookup-taken_apart d path other (lookup path d) e);
  node-make_folders_file = λ d path other bytes mode h. h;
  node-make_folders_other = λ d path other h. refl;
  node-remove_tree_other = λ d folder other h. ap named (lookup-without folder other d h);
}
