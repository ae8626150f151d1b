-- ===== src/Files.antt =====
-- Trees of files, and `filepath.WalkDir` over one. A name with the type of its entry does not change
-- while a walk goes on.
pub mod Walk
pub mod Mode
use gitrepo_csi_driver.Base.{ℕ, Bool, true, false, Result, ok, err, Error}
use gitrepo_csi_driver.Text.{Text}
use gitrepo_csi_driver.Paths.{join_path}

-- `unlistable` is a directory that cannot be read, `special` a device, a socket or a pipe. The
-- entries of a directory stand in the order of their names, as `os.ReadDir` lists them.
mutual
  pub data Node : Type 0 where
    regular : (mode : ℕ) → (content : Text) → Node
    symlink : (target : Text) → Node
    directory : Entries → Node
    unlistable : Error → Node
    special : Node

  pub data Entries : Type 0 where
    end : Entries
    entry : (name : Text) → Node → Entries → Entries

-- `d.IsDir()`
abbrev pub is_dir : Node → Bool
is_dir (directory es) = true
is_dir (unlistable e) = true
is_dir (regular mode content) = false
is_dir (symlink target) = false
is_dir special = false

-- The error that a walk function returns: nil, `fs.SkipDir` or another.
pub data Visit : Type 0 where
  continue : Visit
  skip_dir : Visit
  fail : Error → Visit

module _ {ℓ} {State : Type ℓ} where
  -- What follows unless a call returned an error; `fs.SkipDir` ends the directory only.
  abbrev pub and_then : Visit × State → (State → Visit × State) → Visit × State
  and_then (continue, s) next = next s
  and_then (skip_dir, s) next = (continue, s)
  and_then (fail e, s) next = (fail e, s)

  -- `fs.walkDir`. A walk function that is called with an error returns it, as all of the driver's do.
  module _ (visit : Text → Node → State → Visit × State) where
    unfoldable mutual
      pub walk : Text → Node → State → Visit × State
      walk path (directory es) s =
          and_then (visit path (directory es) s) (λ t. walk_entries path es t)
      walk path (unlistable e) s = and_then (visit path (unlistable e) s) (λ t. (fail e, t))
      walk path (regular mode content) s = visit path (regular mode content) s
      walk path (symlink target) s = visit path (symlink target) s
      walk path special s = visit path special s

      pub walk_entries : Text → Entries → State → Visit × State
      walk_entries path end s = (continue, s)
      walk_entries path (entry name node es) s =
          and_then (walk (join_path path name) node s) (λ t. walk_entries path es t)

-- The error that `filepath.WalkDir` returns.
abbrev pub walk_error : Visit → Result (Unit {0})
walk_error continue = ok tt
walk_error skip_dir = ok tt
walk_error (fail e) = err e
