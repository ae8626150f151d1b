-- ===== src/Policy/Evaluate.antt =====
-- `Evaluator.Evaluate` and `selectPolicy` of pkg/policy/evaluator.go.
pub mod Laws
pub mod Select
use gitrepo_csi_driver.Base.{
  ℕ, Bool, true, false, not, ◌||◌, ◌&&◌, List, [], ◌∷◌, Option, none, some, Result, ok, err, Error,
  errorf, bytes, number, if◌then◌else◌, is_nil, String,
}
use gitrepo_csi_driver.Base.Int.{ℤ, pos, ltb_ℤ}
use gitrepo_csi_driver.Text.{Text, same}
use gitrepo_csi_driver.Library.{Library}
use gitrepo_csi_driver.Policy.Types.{GitContentPolicy, zero_policy, Request, Verdict}
use gitrepo_csi_driver.Policy.Match.{contains, host_from_repo, matches_any_glob}
use gitrepo_csi_driver.Policy.Revision.{check_revision_policy}

abbrev no_reason : Error
no_reason = errorf "" []

abbrev pub denied : String → Error → Verdict
denied code reason = record {
  allowed = false;
  resolved_profile = [];
  denial_reason_code = code;
  denial_reason = reason;
}

abbrev pub allowed : Text → Verdict
allowed profile = record {
  allowed = true;
  resolved_profile = profile;
  denial_reason_code = "";
  denial_reason = no_reason;
}

-- `len(p.Namespaces) == 0 || contains(p.Namespaces, ns)`
unfoldable pub in_namespace : GitContentPolicy → Text → Bool
in_namespace p ns = is_nil p.namespaces || contains p.namespaces ns

-- One round of the loop of `selectPolicy`: whether the policy is returned.
unfoldable pub selects : Text → Text → GitContentPolicy → Bool
selects ns name p =
    if not (is_nil name)
    then (if not (same p.name name) then false else in_namespace p ns)
    else in_namespace p ns

unfoldable pub select_policy : List GitContentPolicy → Text → Text → Option GitContentPolicy
select_policy [] ns name = none
select_policy (p ∷ policies) ns name =
    if selects ns name p then some p else select_policy policies ns name

-- The profile of the request, or the default one.
unfoldable pub profile_of : Request → GitContentPolicy → Text
profile_of req p =
    if is_nil req.credential_profile then p.credentials.default_profile else req.credential_profile

-- The last tests of `Evaluate`.
unfoldable pub check_profile : Request → GitContentPolicy → Verdict
check_profile req p =
    let profile = profile_of req p in
    if not (is_nil profile) && not (contains p.credentials.allowed_profiles profile)
    then denied "credential_profile_denied" (
        errorf "credential profile %s is not allowed by policy %s"
          (bytes profile ∷ bytes p.name ∷ []))
    else allowed profile

unfoldable pub exceeds_depth : Request → GitContentPolicy → Bool
exceeds_depth req p =
    ltb_ℤ (pos 0) req.depth && ltb_ℤ (pos 0) p.clone.max_depth && ltb_ℤ p.clone.max_depth req.depth

module _ (lib : Library) where
  -- `Evaluate` with the policy that is selected.
  unfoldable pub check_policy : Request → GitContentPolicy → Verdict
  check_policy req p =
      if not (matches_any_glob lib p.allowed_repositories req.repo)
      then denied "repo_not_allowed"
          (errorf "repository %s is not allowed by policy %s" (bytes req.repo ∷ bytes p.name ∷ []))
      else if not (contains p.allowed_hosts (host_from_repo lib req.repo))
      then denied "host_not_allowed" (
          errorf "git host %s is not allowed by policy %s"
            (bytes (host_from_repo lib req.repo) ∷ bytes p.name ∷ []))
      else if req.submodules && not p.submodules.enabled
      then denied "submodules_disabled"
          (errorf "submodules were requested but are disabled by policy" [])
      else if req.lfs && not p.lfs.enabled
      then denied "lfs_disabled" (errorf "git lfs was requested but is disabled by policy" [])
      else if exceeds_depth req p
      then denied "depth_exceeded" (
          errorf "requested depth %d exceeds policy max depth %d"
            (number req.depth ∷ number p.clone.max_depth ∷ []))
      else elim (check_revision_policy lib req.revision p.revisions) [
        | err e ↦ denied "revision_denied" e
        | ok _ ↦ check_profile req p
      ]

  unfoldable pub evaluate : List GitContentPolicy → Request → Text → Verdict × GitContentPolicy
  evaluate policies req policy_name = elim (select_policy policies req.namespace policy_name) [
    | none ↦ (denied "policy_not_found" (errorf "no matching policy found" []), zero_policy)
    | some p ↦ (check_policy req p, p)
  ]
