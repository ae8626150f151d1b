-- ===== src/Materializer/Argv.antt =====
-- The arguments that pkg/materializer/gitbinary.go gives to git, and its tests on values.
use gitrepo_csi_driver.Base.{
  zero, suc, Bool, not, ◌&&◌, List, [], ◌∷◌, ◌++◌, Result, ok, err, errorf, bytes, if◌then◌else◌,
  is_nil, any,
}
use gitrepo_csi_driver.Base.Int.{ℤ, pos, negsuc, ltb_ℤ}
use gitrepo_csi_driver.Files.{Node, symlink, is_dir}
use gitrepo_csi_driver.Materializer.Path.{safe_join}
use gitrepo_csi_driver.Materializer.Ref.{is_pinned_commit, mutable_ref, reject_git_flag_operand}
use gitrepo_csi_driver.Text.{Text, codes, contains, contains_any}
use gitrepo_csi_driver.Text.Itoa.{itoa}
use gitrepo_csi_driver.Volume.{Attributes}

-- `validateGitArgs`
unfoldable pub validate_git_args : List Text → Result (Unit {0})
validate_git_args args =
    if any (λ arg. contains_any arg (0 ∷ [])) args
    then err (errorf "git argument contains NUL byte" [])
    else ok tt

-- `gitArgs`
unfoldable pub git_args : List Text → List Text
git_args args =
    codes "-c"
    ∷ codes "core.hooksPath=/dev/null"
    ∷ codes "-c"
    ∷ codes "protocol.file.allow=never"
    ∷ args

abbrev pub command_settings : List Text
command_settings =
    codes "GIT_CONFIG_NOSYSTEM=1"
    ∷ codes "GIT_CONFIG_GLOBAL=/dev/null"
    ∷ codes "GIT_TERMINAL_PROMPT=0"
    ∷ []

-- `stringTrim`: what is in front of the last character that is no newline, return or space.
unfoldable pub string_trim : Text → Text
string_trim [] = []
string_trim (c ∷ v) =
    let rest = string_trim v in
    if is_nil rest && contains_any (c ∷ []) (codes "\n\r ") then [] else c ∷ rest

abbrev pub max : ℤ → ℤ → ℤ
max a b = if ltb_ℤ b a then a else b

-- `isMutableRevision`
unfoldable pub is_mutable_revision : Attributes → Bool
is_mutable_revision attrs = not (is_pinned_commit attrs.revision)

-- The test of an operand that may be missing.
unfoldable pub reject_given : Text → Result (Unit {0})
reject_given ref =
    if is_nil ref then ok tt else reject_git_flag_operand ref (codes "volume attribute revision")

-- The arguments of the clone of a branch, a tag or the default branch.
unfoldable pub clone_args : ℤ → Text → Text → Text → List Text
clone_args depth branch_or_tag repo repo_dir =
    codes "clone"
    ∷ codes "--depth"
    ∷ itoa depth
    ∷ ((if is_nil branch_or_tag then [] else codes "--branch" ∷ branch_or_tag ∷ [])
        ++ codes "--" ∷ repo ∷ repo_dir ∷ [])

unfoldable pub clone_commit_args : ℤ → Text → Text → List Text
clone_commit_args depth repo repo_dir =
    codes "clone"
    ∷ codes "--no-checkout"
    ∷ codes "--depth"
    ∷ itoa depth
    ∷ codes "--"
    ∷ repo
    ∷ repo_dir
    ∷ []

unfoldable pub fetch_args : Attributes → Text → List Text
fetch_args attrs branch_or_tag =
    codes "fetch"
    ∷ codes "--prune"
    ∷ codes "--depth"
    ∷ itoa (max (pos 1) attrs.depth)
    ∷ ((if contains attrs.revision_kind (codes "tag") then codes "--tags" ∷ [] else [])
        ++ codes "origin" ∷ branch_or_tag ∷ [])

-- The depth asked for, or the policy's.
unfoldable pub depth_or : ℤ → ℤ → ℤ
depth_or (pos zero) default_depth = default_depth
depth_or (pos (suc n)) default_depth = pos (suc n)
depth_or (negsuc n) default_depth = negsuc n

-- The ref of a checkout.
unfoldable pub checkout_ref : Attributes → Text
checkout_ref attrs = if is_nil (mutable_ref attrs) then attrs.revision else mutable_ref attrs

-- What `git rev-parse` prints must be a commit.
unfoldable pub check_sha : Text → Result (Unit {0})
check_sha sha =
    if not (is_pinned_commit sha)
    then err (errorf "resolved revision is not a valid commit SHA: %q" (bytes sha ∷ []))
    else ok tt

unfoldable pub rev_parse_args : Text → List Text
rev_parse_args ref =
    codes "rev-parse"
    ∷ codes "--verify"
    ∷ codes "--end-of-options"
    ∷ (ref ++ codes "^{commit}")
    ∷ []

-- What `os.Lstat` must find at the path that is copied.
unfoldable pub check_directory : Text → Node → Result (Unit {0})
check_directory path (symlink target) =
    err (errorf "requested path %s is a symlink" (bytes path ∷ []))
check_directory path node =
    if is_dir node
    then ok tt
    else err (errorf "requested path %s is not a directory" (bytes path ∷ []))

unfoldable pub source_path_of : Text → Text → Result Text
source_path_of repo_dir path = if is_nil path then ok repo_dir else safe_join repo_dir path
