-- ===== src/Files.antt =====
-- What the program asks of the operating system: files, folders and the git program, as operations
-- over a disk and a repository that are not known. It models no file of the repository.

pub mod Memory
use be_code_redux.Base.{
  ℕ, ◌≤◌, List, [], ◌∷◌, ◌++◌, Bool, true, false, Text, codes, text_keyed, ◌==◌, Option, none, some,
  has_prefix, ◌||◌, ◌≡◌,
}

-- What a path names. A `closed` one can be asked about and not read, as a folder; of a `refused` one
-- the system says neither that it is there nor that it is not.
pub data Node : Type 0 where
  file : ℕ → Text → Node
  closed : ℕ → Node
  absent : Node
  refused : Node

pub data Removal : Type 0 where
  removed : Removal
  missing : Removal
  kept_back : Removal

pub record Entry : Type 0 where
  pub name : Text
  pub is_folder : Bool

-- `git` runs in the workspace with extra variables and arguments; `none` is a failed run.
pub record System : Type 1 where
  pub Disk : Type 0
  pub Repo : Type 0
  pub node : Disk → Text → Node
  pub write : Disk → Text → Text → ℕ → Disk × Bool
  pub remove : Disk → Text → Disk × Removal
  pub make_folders : Disk → Text → Disk × Bool
  pub remove_tree : Disk → Text → Disk
  pub list_folder : Disk → Text → Option (List Entry)
  pub modified : Disk → Text → Option ℕ
  pub git : Disk → Repo → List Text → List Text → Repo × Option Text
  pub folder_of : Text → Text
  pub base_of : Text → Text
  pub joined : Text → Text → Text
  pub relative : Text → Text → Option Text

-- os.Stat
pub data Stat : Type 0 where
  present : ℕ → Stat
  not_there : Stat
  no_answer : Stat

abbrev pub stat_of : Node → Stat
stat_of (file mode bytes) = present mode
stat_of (closed mode) = present mode
stat_of absent = not_there
stat_of refused = no_answer

-- os.ReadFile
pub data Contents : Type 0 where
  found : Text → Contents
  gone : Contents
  unreadable : Contents

abbrev pub contents_of : Node → Contents
contents_of (file mode bytes) = found bytes
contents_of (closed mode) = unreadable
contents_of absent = gone
contents_of refused = unreadable

-- The path is the folder or lies under it.
abbrev pub is_under : Text → Text → Bool
is_under folder path = (folder == path) || has_prefix path (folder ++ b'/' ∷ [])

-- What the code relies on, with the clock at `now`: the documented behaviour of os.WriteFile,
-- os.Remove, os.MkdirAll and os.RemoveAll where no two paths name one file. A file keeps its bytes
-- and its time under what is done to other paths. Of what is no file, only the paths that do not
-- lie below the one written or removed stay as they are: below a file nothing can be asked about.
pub record IsLawful (S : System) (now : ℕ) : Type 0 where
  pub node-write :
      (d : S.Disk) (path bytes : Text) (mode : ℕ)
      → (S.write d path bytes mode).1 ≡ true
      → (m : ℕ) × (S.node (S.write d path bytes mode).0 path ≡ file m bytes)
  pub node-write_other :
      (d : S.Disk) (path bytes : Text) (mode : ℕ) (other : Text)
      → is_under path other ≡ false
      → S.node (S.write d path bytes mode).0 other ≡ S.node d other
  pub node-write_file :
      (d : S.Disk) (path bytes : Text) (mode : ℕ) (other its : Text) (m : ℕ)
      → (path == other) ≡ false
      → S.node d other ≡ file m its
      → S.node (S.write d path bytes mode).0 other ≡ file m its
  pub modified-write :
      (d : S.Disk) (path bytes : Text) (mode t : ℕ)
      → (S.write d path bytes mode).1 ≡ true
      → S.modified (S.write d path bytes mode).0 path ≡ some t
      → now ≤ t
  pub node-remove :
      (d : S.Disk) (path : Text)
      → (S.remove d path).1 ≡ removed
      → S.node (S.remove d path).0 path ≡ absent
  pub node-remove_missing :
      (d : S.Disk) (path : Text)
      → (S.remove d path).1 ≡ missing
      → S.node (S.remove d path).0 path ≡ absent
  pub node-remove_other :
      (d : S.Disk) (path other : Text)
      → is_under path other ≡ false
      → S.node (S.remove d path).0 other ≡ S.node d other
  pub node-remove_file :
      (d : S.Disk) (path other its : Text) (m : ℕ)
      → (path == other) ≡ false
      → S.node d other ≡ file m its
      → S.node (S.remove d path).0 other ≡ file m its
  pub modified-remove_file :
      (d : S.Disk) (path other its : Text) (m : ℕ)
      → (path == other) ≡ false
      → S.node d other ≡ file m its
      → S.modified (S.remove d path).0 other ≡ S.modified d other
  pub node-make_folders_file :
      (d : S.Disk) (path other bytes : Text) (mode : ℕ)
      → S.node d other ≡ file mode bytes
      → S.node (S.make_folders d path).0 other ≡ file mode bytes
  pub node-make_folders_other :
      (d : S.Disk) (path other : Text)
      → is_under other path ≡ false
      → S.node (S.make_folders d path).0 other ≡ S.node d other
  pub node-remove_tree_other :
      (d : S.Disk) (folder other : Text)
      → is_under folder other ≡ false
      → S.node (S.remove_tree d folder) other ≡ S.node d other

module _ (S : System) where
  abbrev pub stat : S.Disk → Text → Stat
  stat d path = stat_of (S.node d path)

  abbrev pub read : S.Disk → Text → Contents
  read d path = contents_of (S.node d path)
