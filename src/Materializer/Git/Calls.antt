-- ===== src/Materializer/Git/Calls.antt =====
-- The calls of `Materialize` of the git binary backend.
use gitrepo_csi_driver.Base.{
  arith, zero, suc, ◌≡◌, refl, sym, ap, ◌∙◌, true, [], ◌∷◌, ok, is_nil, All, Bool-cases, inl, inr,
  ok_inj,
}
use gitrepo_csi_driver.Base.Int.{ℤ, pos, negsuc, ◌≤ℤ◌}
use gitrepo_csi_driver.Text.{Text, codes}
use gitrepo_csi_driver.Paths.{CleanPath, parse_path, is_abs, join_path}
use gitrepo_csi_driver.Paths.Dir.{join_path-is_abs}
use gitrepo_csi_driver.Paths.Below.{abs-ne-nil}
use gitrepo_csi_driver.Policy.Types.{GitContentPolicy}
use gitrepo_csi_driver.Volume.{Attributes}
use gitrepo_csi_driver.Volume.Revision.{validate_revision}
use gitrepo_csi_driver.Materializer.Ref.{is_pinned_commit, mutable_ref}
use gitrepo_csi_driver.Materializer.Ref.Laws.{NotDash, reject_git_flag_operand-mutable_ref}
use gitrepo_csi_driver.Materializer.Path.Laws.{safe_join-IsInside, below_nil}
use gitrepo_csi_driver.Materializer.Copy.Safe.{IsContained}
use gitrepo_csi_driver.Materializer.Action.{
  Keeps, Keeps->>=, Keeps->>, Keeps-lift, Keeps-lift_then, Keeps-lift_pass, Keeps-wrap, Keeps-call,
  Keeps-if,
}
use gitrepo_csi_driver.Materializer.Argv.{
  check_sha, checkout_ref, depth_or, source_path_of, is_mutable_revision,
}
use gitrepo_csi_driver.Materializer.GitCommand.{
  made_all, stat, lstat, removed_all, Trace, Environment, git_credential, prepare_work_dir_for_git,
}
use gitrepo_csi_driver.Materializer.Git.{
  fetch_mutable_revision, clone_commit, clone_ref, clone_repository, refresh, clone_or_refresh,
  checkout_resolved, checkout_revision, update_submodules, check_source, lay_out, materialize,
}
use gitrepo_csi_driver.Materializer.Git.Options.{
  clone_commit_args-IsOwn, clone_args-IsOwn, submodule_args-IsOwn, fetch_args-IsOwn,
  rev_parse_args-IsOwn, head_args-IsOwn,
}
use gitrepo_csi_driver.Materializer.Git.Safe.{
  SafeGitCall, prepare-SafeGitCall, run_git-SafeGitCall, git_output-SafeGitCall,
  checkout-SafeGitCall, copy_tree-SafeGitCall, count-SafeGitCall,
}

module _ (env : Environment) (work_dir : Text) where
  -- The directory that is copied is in the repository.
  source_path-IsContained :
      (root path source : Text)
      → is_abs root ≡ true
      → source_path_of root path ≡ ok source
      → IsContained root source × (is_abs source ≡ true)
  unfolding source_path_of is_abs parse_path
  source_path-IsContained root [] source a h =
      rw (← ok_inj h)
        (record { rest = []; no_git = tt; joined = sym (below_nil (parse_path root)) }, a)
  source_path-IsContained root (c ∷ path) source a h =
      let i = safe_join-IsInside root (c ∷ path) source (abs-ne-nil root a) h in
      (
        record { rest = (parse_path (c ∷ path)).names; no_git = i.no_git; joined = i.joined },
        ap (λ (q : CleanPath). q.rooted) i.joined ∙ a,
      )

  module _ (attrs : Attributes) (p : GitContentPolicy)
      (rev : validate_revision attrs.revision ≡ ok tt) (attrs_depth : pos 0 ≤ℤ attrs.depth) where
    ref-NotDash : NotDash (mutable_ref attrs)
    ref-NotDash = (reject_git_flag_operand-mutable_ref attrs.revision_kind attrs.revision [] rev).0

    refresh-SafeGitCall : (dir : Text) → Keeps (SafeGitCall env work_dir) (refresh env attrs dir)
    unfolding refresh fetch_mutable_revision
    refresh-SafeGitCall dir =
        Keeps-if (SafeGitCall env work_dir) (is_mutable_revision attrs) _ _
          (Keeps-if (SafeGitCall env work_dir) (is_nil (mutable_ref attrs)) _ _
            (Keeps-lift (SafeGitCall env work_dir) (ok tt))
            (Keeps->> (SafeGitCall env work_dir) _ _ (Keeps-lift (SafeGitCall env work_dir) _) (
              Keeps-wrap (SafeGitCall env work_dir) _ _ (
                run_git-SafeGitCall env work_dir dir _
                  (fetch_args-IsOwn attrs (mutable_ref attrs) attrs_depth ref-NotDash)))))
          (Keeps-lift (SafeGitCall env work_dir) (ok tt))

    clone-SafeGitCall :
        (dir : Text) (depth : ℤ)
        → pos 0 ≤ℤ depth
        → Keeps (SafeGitCall env work_dir) (clone_repository env attrs work_dir dir depth)
    unfolding clone_repository clone_commit clone_ref
    clone-SafeGitCall dir depth d =
        Keeps-if (SafeGitCall env work_dir) (is_pinned_commit attrs.revision) _ _
          (Keeps->> (SafeGitCall env work_dir) _ _ (Keeps-lift (SafeGitCall env work_dir) _) (
            Keeps-wrap (SafeGitCall env work_dir) _ _ (
              run_git-SafeGitCall env work_dir work_dir _
                (clone_commit_args-IsOwn depth d attrs.repo dir))))
          (Keeps->> (SafeGitCall env work_dir) _ _ (Keeps-lift (SafeGitCall env work_dir) _) (
            Keeps->> (SafeGitCall env work_dir) _ _ (Keeps-lift (SafeGitCall env work_dir) _) (
              Keeps-wrap (SafeGitCall env work_dir) _ _ (
                run_git-SafeGitCall env work_dir work_dir _
                  (clone_args-IsOwn depth d (mutable_ref attrs) attrs.repo dir ref-NotDash)))))

    clone_or_refresh-SafeGitCall :
        (dir : Text) (depth : ℤ)
        → pos 0 ≤ℤ depth
        → Keeps (SafeGitCall env work_dir) (clone_or_refresh env attrs work_dir dir depth)
    unfolding clone_or_refresh
    clone_or_refresh-SafeGitCall dir depth d =
        Keeps->>= (SafeGitCall env work_dir) _ _
          (Keeps-call (SafeGitCall env work_dir) _ (stat (join_path dir (codes ".git"))) tt)
          (λ there.
            Keeps-if (SafeGitCall env work_dir) there _ _ (refresh-SafeGitCall dir)
              (clone-SafeGitCall dir depth d))

    check_sha-pinned : (sha : Text) → check_sha sha ≡ ok tt → is_pinned_commit sha ≡ true
    unfolding check_sha
    check_sha-pinned sha h = ground arith

    checkout_revision-SafeGitCall :
        (dir : Text) → Keeps (SafeGitCall env work_dir) (checkout_revision env attrs dir)
    unfolding checkout_revision checkout_resolved
    checkout_revision-SafeGitCall dir = elim (Bool-cases (is_pinned_commit attrs.revision)) [
      | inl h ↦ rw (h) (checkout-SafeGitCall env work_dir dir attrs.revision h)
      | inr h ↦ rw (h) (
          Keeps->> (SafeGitCall env work_dir) _ _ (Keeps-lift (SafeGitCall env work_dir) _) (
            Keeps->>= (SafeGitCall env work_dir) _ _
              (Keeps-wrap (SafeGitCall env work_dir) _ _ (
                git_output-SafeGitCall env work_dir dir _
                  (rev_parse_args-IsOwn (checkout_ref attrs))))
              (λ sha.
                Keeps-lift_pass (SafeGitCall env work_dir) (check_sha sha) _
                  (λ k. checkout-SafeGitCall env work_dir dir sha (check_sha-pinned sha k)))))
    ]

    submodules-SafeGitCall :
        (dir : Text)
        → pos 0 ≤ℤ p.submodules.max_depth
        → Keeps (SafeGitCall env work_dir) (update_submodules env attrs p dir)
    unfolding update_submodules
    submodules-SafeGitCall dir d =
        Keeps-if (SafeGitCall env work_dir) attrs.submodules _ _
          (Keeps-wrap (SafeGitCall env work_dir) _ _ (
            run_git-SafeGitCall env work_dir dir _ (submodule_args-IsOwn p.submodules.max_depth d)))
          (Keeps-lift (SafeGitCall env work_dir) (ok tt))

    lay_out-SafeGitCall :
        (resolved : Text)
        → is_abs work_dir ≡ true
        → Keeps (SafeGitCall env work_dir) (
            lay_out env attrs p resolved
              (join_path work_dir (codes "repo"))
              (join_path work_dir (codes "content")))
    unfolding lay_out check_source
    lay_out-SafeGitCall resolved w =
        Keeps-lift_then (SafeGitCall env work_dir)
          (source_path_of (join_path work_dir (codes "repo")) attrs.path) _
          (λ source h.
            let (c, a) =
              source_path-IsContained (join_path work_dir (codes "repo")) attrs.path source
                (join_path-is_abs work_dir (codes "repo") w) h in
            Keeps->> (SafeGitCall env work_dir) _ _ (Keeps-lift (SafeGitCall env work_dir) _) (
              Keeps->> (SafeGitCall env work_dir) _ _
                (Keeps->>= (SafeGitCall env work_dir) _ _
                  (Keeps-call (SafeGitCall env work_dir) _ (lstat source) tt)
                  (λ node. Keeps-lift (SafeGitCall env work_dir) _))
                (Keeps->> (SafeGitCall env work_dir) _ _
                  (Keeps-call (SafeGitCall env work_dir) _
                    (removed_all (join_path work_dir (codes "content"))) refl)
                  (Keeps->> (SafeGitCall env work_dir) _ _
                    (copy_tree-SafeGitCall env work_dir source a w c)
                    (Keeps->>= (SafeGitCall env work_dir) _ _
                      (count-SafeGitCall env work_dir (join_path work_dir (codes "content")))
                      (λ n.
                        Keeps->> (SafeGitCall env work_dir) _ _
                          (Keeps-lift (SafeGitCall env work_dir) _)
                          (Keeps-lift (SafeGitCall env work_dir) _)))))))

depth_or-nonneg : (a b : ℤ) → pos 0 ≤ℤ a → pos 0 ≤ℤ b → pos 0 ≤ℤ depth_or a b
unfolding depth_or
depth_or-nonneg (pos zero) b h k = k
depth_or-nonneg (pos (suc n)) b h k = h
depth_or-nonneg (negsuc n) b h k = absurd (omega arith)

pub materialize-SafeGitCall :
    (env : Environment) (attrs : Attributes) (p : GitContentPolicy) (work_dir : Text)
    (trace : Trace)
    → validate_revision attrs.revision ≡ ok tt
    → pos 0 ≤ℤ attrs.depth
    → pos 0 ≤ℤ p.clone.default_depth
    → pos 0 ≤ℤ p.submodules.max_depth
    → is_abs work_dir ≡ true
    → All (SafeGitCall env work_dir) trace
    → All (SafeGitCall env work_dir) (materialize env attrs p work_dir trace).1
unfolding materialize Keeps prepare_work_dir_for_git
materialize-SafeGitCall env attrs p work_dir trace rev a d m w t =
    let P = SafeGitCall env work_dir in
    let dir = join_path work_dir (codes "repo") in
    Keeps->> P _ _ (Keeps-call P _ (made_all work_dir _) refl)
      (Keeps->> P _ _ (prepare-SafeGitCall env work_dir (git_credential env)) (
        Keeps->> P _ _
          (clone_or_refresh-SafeGitCall env work_dir attrs p rev a dir _
            (depth_or-nonneg attrs.depth p.clone.default_depth a d))
          (Keeps->> P _ _ (checkout_revision-SafeGitCall env work_dir attrs p rev a dir) (
            Keeps->> P _ _ (submodules-SafeGitCall env work_dir attrs p rev a dir m) (
              Keeps->>= P _ _
                (Keeps-wrap P _ _ (git_output-SafeGitCall env work_dir dir _ head_args-IsOwn))
                (λ resolved. lay_out-SafeGitCall env work_dir attrs p rev a resolved w))))))
      trace t
