-- ===== src/Materializer/Git/Safe.antt =====
-- What `Materialize` of the git binary backend asks of git and of the system.
use gitrepo_csi_driver.Base.{
  ◌≡◌, refl, true, List, Result, ok, err, Option, none, some, All, All-append, inl, inr,
  Result-cases,
}
use gitrepo_csi_driver.Text.{Text, codes}
use gitrepo_csi_driver.Paths.{is_abs, clean, join_path}
use gitrepo_csi_driver.Paths.Dir.{join_path-is_abs}
use gitrepo_csi_driver.Materializer.Ref.{is_pinned_commit}
use gitrepo_csi_driver.Materializer.Copy.Safe.{IsContained, SafeWrite, copy_content_tree-SafeWrite}
use gitrepo_csi_driver.Materializer.Action.{
  Action, Keeps, Keeps->>=, Keeps-lift, Keeps-wrap, Keeps-call, ◌>>=◌, ◌>>◌, lift,
}
use gitrepo_csi_driver.Materializer.Argv.{command_settings, validate_git_args, git_args}
use gitrepo_csi_driver.Materializer.GitCommand.{
  Credential, Command, Call, made_all, chmod, stat, lstat, git, removed_all, copied, Environment,
  git_credential, share_work_dir, git_command, run_git, git_output,
}
use gitrepo_csi_driver.Materializer.Git.{checkout, copy_tree, count_content}
use gitrepo_csi_driver.Materializer.Git.Options.{IsOwn, checkout_args-IsOwn}

-- A command with the hardening options in front, with no option that is not the driver's and no NUL
-- byte, which checks out nothing but a commit and runs as the user that the environment names.
pub record IsSafeCommand (env : Environment) (cmd : Command) : Type 0 where
  pub rest : List Text
  pub hardened : cmd.args ≡ git_args rest
  pub own : IsOwn rest
  pub no_nul : validate_git_args rest ≡ ok tt
  pub user : git_credential env ≡ ok cmd.credential

module _ (env : Environment) (work_dir : Text) where
  abbrev pub SafeGitCall : Call → Type 0
  SafeGitCall (made_all path mode) = path ≡ work_dir
  SafeGitCall (chmod path mode) = path ≡ work_dir
  SafeGitCall (stat path) = Unit {0}
  SafeGitCall (lstat path) = Unit {0}
  SafeGitCall (git cmd) = IsSafeCommand env cmd
  SafeGitCall (removed_all path) = path ≡ join_path work_dir (codes "content")
  SafeGitCall (copied source target log) =
      IsContained (join_path work_dir (codes "repo")) source
      × (target ≡ join_path work_dir (codes "content"))
      × All (SafeWrite (clean source) (clean target)) log

  pub prepare-SafeGitCall :
      (c : Result (Option Credential)) → Keeps SafeGitCall (share_work_dir env c work_dir)
  unfolding share_work_dir
  prepare-SafeGitCall (err e) = Keeps-lift SafeGitCall (err e)
  prepare-SafeGitCall (ok none) = Keeps-lift SafeGitCall (ok tt)
  prepare-SafeGitCall (ok (some cred)) = Keeps-call SafeGitCall _ (chmod work_dir 0o775) refl

  -- A command that is run is safe whatever else it is given.
  pub git_command-SafeGitCall :
      {A : Type 0} (dir : Text) (args : List Text) (next : Command → Action Call A)
      → ((cmd : Command) → IsSafeCommand env cmd → Keeps SafeGitCall (next cmd))
      → IsOwn args
      → Keeps SafeGitCall (git_command env dir args >>= next)
  unfolding git_command Keeps ◌>>=◌ ◌>>◌ lift
  git_command-SafeGitCall dir args next k own trace t =
      elim (Result-cases (validate_git_args args)) [
        | inl (e, v) ↦ rw (v) t
        | inr (u, v) ↦ elim (Result-cases (git_credential env)) [
          | inl (e, c) ↦ rw (v, c) t
          | inr (cred, c) ↦
              rw (v, c)
                (k
                  (record {
                    dir = dir;
                    args = git_args args;
                    settings = command_settings;
                    credential = cred;
                  })
                  (record { rest = args; hardened = refl; own = own; no_nul = v; user = c }) trace
                  t)
        ]
      ]

  pub run_git-SafeGitCall :
      (dir : Text) (args : List Text) → IsOwn args → Keeps SafeGitCall (run_git env dir args)
  unfolding run_git
  run_git-SafeGitCall dir args own =
      git_command-SafeGitCall dir args _
        (λ cmd s. Keeps-wrap SafeGitCall _ _ (
          Keeps-call SafeGitCall _ (git _) (record {
            rest = s.rest;
            hardened = s.hardened;
            own = s.own;
            no_nul = s.no_nul;
            user = s.user;
          })))
        own

  pub git_output-SafeGitCall :
      (dir : Text) (args : List Text) → IsOwn args → Keeps SafeGitCall (git_output env dir args)
  unfolding git_output
  git_output-SafeGitCall dir args own =
      git_command-SafeGitCall dir args _
        (λ cmd s.
          Keeps->>= SafeGitCall _ _ (Keeps-call SafeGitCall _ (git cmd) s)
            (λ out. Keeps-lift SafeGitCall _))
        own

  pub checkout-SafeGitCall :
      (dir sha : Text) → is_pinned_commit sha ≡ true → Keeps SafeGitCall (checkout env dir sha)
  unfolding checkout
  checkout-SafeGitCall dir sha h =
      Keeps-wrap SafeGitCall _ _ (run_git-SafeGitCall dir _ (checkout_args-IsOwn sha h))

  pub copy_tree-SafeGitCall :
      (source : Text)
      → is_abs source ≡ true
      → is_abs work_dir ≡ true
      → IsContained (join_path work_dir (codes "repo")) source
      → Keeps SafeGitCall (copy_tree env source (join_path work_dir (codes "content")))
  unfolding copy_tree Keeps
  copy_tree-SafeGitCall source a w c trace t = All-append SafeGitCall trace _ t (
    (
      c,
      refl,
      copy_content_tree-SafeWrite _ source (join_path work_dir (codes "content")) _ a
          (join_path-is_abs work_dir (codes "content") w),
    ),
    tt,
  )

  pub count-SafeGitCall : (content : Text) → Keeps SafeGitCall (count_content env content)
  unfolding count_content Keeps
  count-SafeGitCall content trace t = t
