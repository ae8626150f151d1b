-- ===== src/Materializer/GoGit/Library.antt =====
-- What gogit.go uses of the library go-git, and its calls.
use gitrepo_csi_driver.Base.{ℕ, Bool, List, Result, Option}
use gitrepo_csi_driver.Base.Int.{ℤ}
use gitrepo_csi_driver.Text.{Text}
use gitrepo_csi_driver.Files.{Node}
use gitrepo_csi_driver.Materializer.Copy.{Write}

-- `object.File`: `reader` is what reading it gives.
pub record GitFile : Type 0 where
  pub name : Text
  pub mode : ℕ
  pub reader : Result Text

-- An entry of a tree walk with its name.
pub record TreeEntry : Type 0 where
  pub name : Text
  pub mode : ℕ
  pub hash : Text

-- A section of a git configuration; a subsection is its options, the empty string where one is
-- missing.
pub record Section : Type 0 where
  pub name : Text
  pub subsections : List (Text → Text)

-- `gogit.CloneOptions`; `auth` is a user and a password.
pub record CloneOptions : Type 0 where
  pub url : Text
  pub depth : ℤ
  pub no_checkout : Bool
  pub reference_name : Text
  pub single_branch : Bool
  pub auth : Option (Text × Text)

pub data Call : Type 0 where
  cloned : CloneOptions → Call
  removed_all : (path : Text) → Call
  made_all : (path : Text) → (mode : ℕ) → Call
  wrote : Write → Call
  lchown : (path : Text) → (uid gid : ℕ) → Call

abbrev pub Trace : Type 0
Trace = List Call

-- `files` and `entries` are iterators: what they give, and the error that they end with. `file` has
-- `none` for `object.ErrFileNotFound`.
pub record GoGit : Type 1 where
  pub Repository : Type 0
  pub Commit : Type 0
  pub Tree : Type 0
  pub clone : Trace → Result Repository
  pub head : Repository → Result Text
  pub commit_object : Repository → Text → Result Commit
  pub commit_hash : Commit → Text
  pub commit_tree : Commit → Result Tree
  pub subtree : Tree → Text → Result Tree
  pub files : Tree → List GitFile × Result (Unit {0})
  pub entries : Tree → List TreeEntry × Result (Unit {0})
  pub file : Tree → Text → Result (Option GitFile)
  pub decode : Text → Result (List Section)
  pub is_file : ℕ → Bool
  pub new_hash : Text → Text
  pub tag_reference_name : Text → Text
  pub branch_reference_name : Text → Text

-- The system: `answer` is the error of the last call, `node_at` what stands at a path.
pub record System : Type 0 where
  pub getenv : Text → Text
  pub answer : Trace → Result (Unit {0})
  pub node_at : Trace → Text → Result Node

-- `filemode.Symlink` and `filemode.Submodule`
abbrev pub symlink_mode : ℕ
symlink_mode = 0o120000

abbrev pub submodule_mode : ℕ
submodule_mode = 0o160000
