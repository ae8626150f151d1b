-- ===== src/Materializer/GitCommand.antt =====
-- The commands of `gitBinaryBackend` of pkg/materializer/gitbinary.go: what it asks of the system, as a trace
-- of calls, and how it runs git. What a call answers is a function of the trace that ends with it.
use gitrepo_csi_driver.Base.{
  ℕ, Bool, not, ◌&&◌, ◌||◌, List, [], ◌∷◌, ◌++◌, Result, ok, err, Error, errorf, wrapf,
  if◌then◌else◌, is_nil, Option, none, some,
}
use gitrepo_csi_driver.Files.{Node}
use gitrepo_csi_driver.Materializer.Action.{Action, ◌>>=◌, ◌>>◌, lift, wrap, call}
use gitrepo_csi_driver.Materializer.Argv.{
  validate_git_args, git_args, command_settings, string_trim,
}
use gitrepo_csi_driver.Materializer.Copy.{Log}
use gitrepo_csi_driver.Text.{Text, codes}
use gitrepo_csi_driver.Text.Number.{parse_uint32}

-- `syscall.Credential`
pub record Credential : Type 0 where
  pub uid : ℕ
  pub gid : ℕ

-- An `exec.Cmd` of the git binary; `settings` is what it adds to the environment.
pub record Command : Type 0 where
  pub dir : Text
  pub args : List Text
  pub settings : List Text
  pub credential : Option Credential

-- `removed_all` is `os.RemoveAll`, and `copied` a `CopyContentTree` with all that it wrote.
pub data Call : Type 0 where
  made_all : (path : Text) → (mode : ℕ) → Call
  chmod : (path : Text) → (mode : ℕ) → Call
  stat : (path : Text) → Call
  lstat : (path : Text) → Call
  git : Command → Call
  removed_all : (path : Text) → Call
  copied : (source target : Text) → Log → Call

abbrev pub Trace : Type 0
Trace = List Call

-- `answer` is the error of the last call, `output` the standard output of a command, `node_at` what
-- stands at a path, and `write_answer` the error of the last write of a copy.
pub record Environment : Type 0 where
  pub getenv : Text → Text
  pub is_root : Bool
  pub is_permission : Error → Bool
  pub answer : Trace → Result (Unit {0})
  pub output : Trace → Result Text
  pub node_at : Trace → Text → Result Node
  pub write_answer : Trace → Log → Result (Unit {0})

-- `New`, from what `exec.LookPath` finds.
unfoldable pub new : Result Text → Result Text
new (err e) = err (wrapf "git binary not found: %w" e)
new (ok git_path) = ok git_path

module _ (env : Environment) where
  uid_raw : Text
  uid_raw = env.getenv (codes "GITCONTENT_GIT_RUN_AS_UID")

  gid_raw : Text
  gid_raw = env.getenv (codes "GITCONTENT_GIT_RUN_AS_GID")

  -- `gitCredential`; `none` is its false.
  unfoldable pub git_credential : Result (Option Credential)
  unfolding uid_raw gid_raw
  git_credential =
      if is_nil uid_raw && is_nil gid_raw
      then ok none
      else if not env.is_root
      then ok none
      else if is_nil uid_raw || is_nil gid_raw
      then err
          (errorf "both GITCONTENT_GIT_RUN_AS_UID and GITCONTENT_GIT_RUN_AS_GID are required" [])
      else elim (parse_uint32 uid_raw) [
        | none ↦ err (errorf "invalid GITCONTENT_GIT_RUN_AS_UID: %w" [])
        | some uid ↦ elim (parse_uint32 gid_raw) [
          | none ↦ err (errorf "invalid GITCONTENT_GIT_RUN_AS_GID: %w" [])
          | some gid ↦ ok (some (record { uid = uid; gid = gid }))
        ]
      ]

  unfoldable pub ignore_permission : Result (Unit {0}) → Result (Unit {0})
  ignore_permission (ok _) = ok tt
  ignore_permission (err e) = if env.is_permission e then ok tt else err e

  unfoldable pub share_work_dir : Result (Option Credential) → Text → Action Call (Unit {0})
  share_work_dir (err e) path = lift (err e)
  share_work_dir (ok none) path = lift (ok tt)
  share_work_dir (ok (some cred)) path =
      call (λ t. ignore_permission (env.answer t)) (chmod path 0o775)

  unfoldable pub prepare_work_dir_for_git : Text → Action Call (Unit {0})
  prepare_work_dir_for_git path = share_work_dir git_credential path

  -- `gitCommand`
  unfoldable pub git_command : Text → List Text → Action Call Command
  git_command dir args = do
    lift (validate_git_args args)
    cred ← lift git_credential
    lift (
        ok (record {
          dir = dir;
          args = git_args args;
          settings = command_settings;
          credential = cred;
        }))

  -- What the command printed is left out of the error's arguments.
  unfoldable pub run_git : Text → List Text → Action Call (Unit {0})
  run_git dir args = do
    cmd ← git_command dir args
    let quiet = cmd.settings ++ codes "GIT_OPTIONAL_LOCKS=0" ∷ codes "GIT_LFS_SKIP_SMUDGE=1" ∷ []
    wrap "%w: %s" (call env.answer (git (record cmd { settings = quiet })))

  unfoldable pub git_output : Text → List Text → Action Call Text
  git_output dir args = do
    cmd ← git_command dir args
    out ← call env.output (git cmd)
    lift (ok (string_trim out))
