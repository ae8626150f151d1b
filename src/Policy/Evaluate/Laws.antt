-- ===== src/Policy/Evaluate/Laws.antt =====
-- `Evaluate` allows a request exactly when the selected policy grants it.
use gitrepo_csi_driver.Base.{
  ◌≡◌, ◌≢◌, ◌↔◌, ◌⊎◌, refl, ap, ◌∙◌, Bool, true, false, not, ◌||◌, ◌&&◌, List, [], ◌∷◌, some, ok,
  if◌then◌else◌, is_nil, Any, arith,
}
use gitrepo_csi_driver.Base.Int.{pos, ◌≤ℤ◌, ltb_ℤ}
use gitrepo_csi_driver.Text.{Text}
use gitrepo_csi_driver.Library.{Library}
use gitrepo_csi_driver.Policy.Types.{GitContentPolicy, Request}
use gitrepo_csi_driver.Policy.Match.{contains, matches_any_glob, host_from_repo}
use gitrepo_csi_driver.Policy.Match.Laws.{contains_iff, matches_any_glob_iff, nil_or_iff}
use gitrepo_csi_driver.Policy.Revision.{check_revision_policy}
use gitrepo_csi_driver.Policy.Revision.Laws.{PermitsRevision, check_revision_policy_iff}
use gitrepo_csi_driver.Policy.Evaluate.{
  allowed, select_policy, profile_of, check_profile, exceeds_depth, check_policy, evaluate,
}
use gitrepo_csi_driver.Policy.Evaluate.Select.{IsSelected, select_policy_iff}

module _ (lib : Library) where
  -- What a policy has to say of a request, and the profile that the request is given.
  pub record Grants (p : GitContentPolicy) (req : Request) (profile : Text) : Type 0 where
    pub repository : Any (λ g. lib.path_match g req.repo ≡ true) p.allowed_repositories
    pub host : Any (λ h. h ≡ host_from_repo lib req.repo) p.allowed_hosts
    pub submodules : req.submodules ≡ true → p.submodules.enabled ≡ true
    pub lfs : req.lfs ≡ true → p.lfs.enabled ≡ true
    pub depth :
        ltb_ℤ (pos 0) req.depth ≡ true
        → ltb_ℤ (pos 0) p.clone.max_depth ≡ true
        → req.depth ≤ℤ p.clone.max_depth
    pub revision : PermitsRevision lib p.revisions req.revision
    pub own_profile : req.credential_profile ≢ [] → profile ≡ req.credential_profile
    pub default_profile : req.credential_profile ≡ [] → profile ≡ p.credentials.default_profile
    pub listed_profile : (profile ≡ []) ⊎ Any (λ v. v ≡ profile) p.credentials.allowed_profiles

  module _ (p : GitContentPolicy) (req : Request) where
    -- The tests that precede the revision's, as one Boolean.
    features_ok : Bool
    features_ok =
        matches_any_glob lib p.allowed_repositories req.repo
        && contains p.allowed_hosts (host_from_repo lib req.repo)
        && not (req.submodules && not p.submodules.enabled)
        && not (req.lfs && not p.lfs.enabled)
        && not (exceeds_depth req p)

    profile_ok : Bool
    profile_ok =
        is_nil (profile_of req p) || contains p.credentials.allowed_profiles (profile_of req p)

    check_profile_iff :
        (profile : Text)
        → (check_profile req p ≡ allowed profile)
          ↔ ((profile_ok ≡ true) × (profile ≡ profile_of req p))
    unfolding check_profile profile_ok
    check_profile_iff profile = ((λ h. ground arith), (λ h. ground arith))

    check_policy_ok :
        (profile : Text)
        → check_policy lib req p ≡ allowed profile
        → (features_ok ≡ true)
          × (check_revision_policy lib req.revision p.revisions ≡ ok tt)
          × (check_profile req p ≡ allowed profile)
    unfolding check_policy features_ok
    check_policy_ok profile h = ground arith

    check_policy_of_ok :
        (profile : Text)
        → features_ok ≡ true
        → check_revision_policy lib req.revision p.revisions ≡ ok tt
        → check_profile req p ≡ allowed profile
        → check_policy lib req p ≡ allowed profile
    unfolding check_policy features_ok
    check_policy_of_ok profile f r c = ground arith

    -- The first tests, read one by one.
    features_split :
        features_ok ≡ true
        → (matches_any_glob lib p.allowed_repositories req.repo ≡ true)
          × (contains p.allowed_hosts (host_from_repo lib req.repo) ≡ true)
          × (req.submodules ≡ true → p.submodules.enabled ≡ true)
          × (req.lfs ≡ true → p.lfs.enabled ≡ true)
          × (exceeds_depth req p ≡ false)
    unfolding features_ok
    features_split h =
        (ground arith, ground arith, (λ k. ground arith), (λ k. ground arith), ground arith)

    features_join :
        matches_any_glob lib p.allowed_repositories req.repo ≡ true
        → contains p.allowed_hosts (host_from_repo lib req.repo) ≡ true
        → (req.submodules ≡ true → p.submodules.enabled ≡ true)
        → (req.lfs ≡ true → p.lfs.enabled ≡ true)
        → exceeds_depth req p ≡ false
        → features_ok ≡ true
    unfolding features_ok
    features_join m c s l d = ground arith

    -- A depth is too large only if both depths are positive.
    depth_iff : (exceeds_depth req p ≡ false) ↔ (
        ltb_ℤ (pos 0) req.depth ≡ true
        → ltb_ℤ (pos 0) p.clone.max_depth ≡ true
        → req.depth ≤ℤ p.clone.max_depth)
    unfolding exceeds_depth
    depth_iff = ((λ h a b. ground arith), (λ h. ground arith))

    profile_iff :
        (profile : Text)
        → (profile ≡ profile_of req p) ↔ (
            (req.credential_profile ≢ [] → profile ≡ req.credential_profile)
            × (req.credential_profile ≡ [] → profile ≡ p.credentials.default_profile))
    unfolding profile_of
    profile_iff profile = (
      (λ e. ((λ n. e ∙ given req.credential_profile n), (λ z. e ∙ rw z))),
      (λ h. from req.credential_profile h.0 h.1),
    )
      where
        d : Text
        d = p.credentials.default_profile

        given : (c : Text) → c ≢ [] → (if is_nil c then d else c) ≡ c
        given [] n = absurd (n refl)
        given (x ∷ c) n = refl

        from :
            (c : Text)
            → (c ≢ [] → profile ≡ c)
            → (c ≡ [] → profile ≡ d)
            → profile ≡ (if is_nil c then d else c)
        from [] g e = e refl
        from (x ∷ c) g e = g (λ z. cc)

    listed_iff :
        (profile_ok ≡ true)
        ↔ ((profile_of req p ≡ []) ⊎ Any (λ v. v ≡ profile_of req p) p.credentials.allowed_profiles)
    unfolding profile_ok
    listed_iff =
        nil_or_iff (profile_of req p) (contains p.credentials.allowed_profiles (profile_of req p))
          (contains_iff p.credentials.allowed_profiles (profile_of req p))

    Grants-of_allowed :
        (profile : Text) → check_policy lib req p ≡ allowed profile → Grants p req profile
    Grants-of_allowed profile h =
        let (f, r, c) = check_policy_ok profile h in
        let (m, k, s, l, d) = features_split f in
        let (o, e) = (check_profile_iff profile).0 c in
        let (own, default) = (profile_iff profile).0 e in
        record {
          repository = (matches_any_glob_iff lib p.allowed_repositories req.repo).0 m;
          host = (contains_iff p.allowed_hosts (host_from_repo lib req.repo)).0 k;
          submodules = s;
          lfs = l;
          depth = depth_iff.0 d;
          revision = (check_revision_policy_iff lib req.revision p.revisions).0 r;
          own_profile = own;
          default_profile = default;
          listed_profile = rw e (listed_iff.0 o);
        }

    allowed_of_Grants :
        (profile : Text) → Grants p req profile → check_policy lib req p ≡ allowed profile
    allowed_of_Grants profile g =
        let e = (profile_iff profile).1 (g.own_profile, g.default_profile) in
        check_policy_of_ok profile
          (features_join ((matches_any_glob_iff lib p.allowed_repositories req.repo).1 g.repository)
            ((contains_iff p.allowed_hosts (host_from_repo lib req.repo)).1 g.host) g.submodules
            g.lfs (depth_iff.1 g.depth))
          ((check_revision_policy_iff lib req.revision p.revisions).1 g.revision)
          ((check_profile_iff profile).1 (listed_iff.1 (rw e at g.listed_profile), e))

  evaluate_of_some :
      (policies : List GitContentPolicy) (req : Request) (name : Text) (p : GitContentPolicy)
      → select_policy policies req.namespace name ≡ some p
      → evaluate lib policies req name ≡ (check_policy lib req p, p)
  unfolding evaluate
  evaluate_of_some policies req name p e = ground arith

  evaluate_allowed :
      (policies : List GitContentPolicy) (req : Request) (name profile : Text)
      (p : GitContentPolicy)
      → evaluate lib policies req name ≡ (allowed profile, p)
      → (select_policy policies req.namespace name ≡ some p)
        × (check_policy lib req p ≡ allowed profile)
  unfolding evaluate
  evaluate_allowed policies req name profile p h = ground arith

  -- `evaluate` allows a request, with a profile and a policy, exactly when the policy is the first
  -- that applies and grants the request that profile.
  pub evaluate_iff :
      (policies : List GitContentPolicy) (req : Request) (name profile : Text)
      (p : GitContentPolicy)
      → (evaluate lib policies req name ≡ (allowed profile, p))
        ↔ (IsSelected policies req.namespace name p × Grants p req profile)
  evaluate_iff policies req name profile p = (
    (λ h.
        let (s, c) = evaluate_allowed policies req name profile p h in
        ((select_policy_iff req.namespace name policies p).0 s, Grants-of_allowed p req profile c)),
    (λ h.
        evaluate_of_some policies req name p
          ((select_policy_iff req.namespace name policies p).1 h.0)
        ∙ ap (λ v. (v, p)) (allowed_of_Grants p req profile h.1)),
  )
