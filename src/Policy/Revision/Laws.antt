-- ===== src/Policy/Revision/Laws.antt =====
-- `checkRevisionPolicy` against the policy's meaning.
use gitrepo_csi_driver.Base.{
  ◌≡◌, ◌↔◌, ◌⊎◌, inl, inr, refl, Bool, true, false, ◌||◌, List, [], ◌∷◌, ok, is_nil, Any, arith,
  Bool-cases,
}
use gitrepo_csi_driver.Text.{Text, codes, has_prefix}
use gitrepo_csi_driver.Library.{Library}
use gitrepo_csi_driver.Volume.Revision.Laws.{disjoint_prefixes, is_hex_sha-HasNoPrefix}
use gitrepo_csi_driver.Policy.Types.{RevisionPolicy}
use gitrepo_csi_driver.Policy.Match.{matches_any_regex, regexp_match}
use gitrepo_csi_driver.Policy.Revision.{is_commit_sha, is_tag, is_branch, check_revision_policy}

-- A revision is a commit, a tag or a branch, and never two of these.
is_commit-alone :
    (rev : Text) → is_commit_sha rev ≡ true → (is_tag rev ≡ false) × (is_branch rev ≡ false)
unfolding is_tag is_branch
is_commit-alone rev h =
    let n = is_hex_sha-HasNoPrefix rev h in (rw (n.tags, n.tag), rw (n.heads, n.branch, h))

-- A revision with a tag's prefix has no branch's.
no_branch_prefix :
    (rev p : Text)
    → (has_prefix p (codes "refs/heads/") || has_prefix (codes "refs/heads/") p) ≡ false
    → (has_prefix p (codes "branch:") || has_prefix (codes "branch:") p) ≡ false
    → has_prefix rev p ≡ true
    → (has_prefix rev (codes "refs/heads/") || has_prefix rev (codes "branch:")) ≡ false
no_branch_prefix rev p d e h = rw (
  disjoint_prefixes rev p (codes "refs/heads/") d h,
  disjoint_prefixes rev p (codes "branch:") e h,
)

is_tag-no_branch_prefix :
    (rev : Text)
    → is_tag rev ≡ true
    → (has_prefix rev (codes "refs/heads/") || has_prefix rev (codes "branch:")) ≡ false
unfolding is_tag
is_tag-no_branch_prefix rev h = elim (Bool-cases (has_prefix rev (codes "refs/tags/"))) [
  | inl t ↦
      no_branch_prefix rev (codes "refs/tags/") (unfold has_prefix in refl)
        (unfold has_prefix in refl) t
  | inr t ↦
      no_branch_prefix rev (codes "tag:") (unfold has_prefix in refl) (unfold has_prefix in refl)
        (ground arith)
]

is_tag-not_branch : (rev : Text) → is_tag rev ≡ true → is_branch rev ≡ false
unfolding is_branch
is_tag-not_branch rev h = ground (arith, is_tag-no_branch_prefix rev h)

-- Every other revision is a branch's.
is_branch_rest :
    (rev : Text) → is_commit_sha rev ≡ false → is_tag rev ≡ false → is_branch rev ≡ true
unfolding is_branch
is_branch_rest rev c t = ground arith

module _ (lib : Library) where
  -- No patterns, or one that compiles and matches.
  abbrev pub Covers : List Text → Text → Type 0
  Covers patterns rev = (patterns ≡ []) ⊎ Any (λ raw. regexp_match lib raw rev ≡ true) patterns

  -- What the policy says: a commit always; else no commit may be required, and tags or branches must
  -- be allowed and their patterns, if there are any, must cover the revision.
  abbrev pub PermitsRevision : RevisionPolicy → Text → Type 0
  PermitsRevision rp rev =
      (is_commit_sha rev ≡ true)
      ⊎ ((is_commit_sha rev ≡ false)
          × (rp.require_pinned_commit ≡ false)
          × (((is_tag rev ≡ true) × (rp.allow_tags ≡ true) × Covers rp.allowed_tag_regex rev)
              ⊎ ((is_tag rev ≡ false)
                  × (rp.allow_branches ≡ true)
                  × Covers rp.allowed_branch_regex rev)))

  matches_any_regex_iff :
      (patterns : List Text) (rev : Text)
      → (matches_any_regex lib patterns rev ≡ true)
        ↔ Any (λ raw. regexp_match lib raw rev ≡ true) patterns
  unfolding matches_any_regex
  matches_any_regex_iff [] rev = ((λ h. cc), (λ h. elim h [ ]))
  matches_any_regex_iff (p ∷ patterns) rev = elim (Bool-cases (regexp_match lib p rev)) [
    | inl m ↦ ((λ h. inl m), (λ h. rw m))
    | inr m ↦ (
      (λ h. inr ((matches_any_regex_iff patterns rev).0 (rw m at h))),
      (λ h. rw m (elim h [ inl k ↦ cc | inr k ↦ (matches_any_regex_iff patterns rev).1 k ])),
    )
  ]

  -- The test on patterns that the code makes.
  abbrev covered : List Text → Text → Bool
  covered patterns rev = is_nil patterns || matches_any_regex lib patterns rev

  covered_iff :
      (patterns : List Text) (rev : Text) → (covered patterns rev ≡ true) ↔ Covers patterns rev
  covered_iff [] rev = ((λ h. inl refl), (λ h. refl))
  covered_iff (p ∷ patterns) rev = (
    (λ h. inr ((matches_any_regex_iff (p ∷ patterns) rev).0 h)),
    (λ h. elim h [ inl e ↦ cc | inr k ↦ (matches_any_regex_iff (p ∷ patterns) rev).1 k ]),
  )

  module _ (rev : Text) (rp : RevisionPolicy) where
    commit_accepted : is_commit_sha rev ≡ true → check_revision_policy lib rev rp ≡ ok tt
    unfolding check_revision_policy
    commit_accepted c = let (t, b) = is_commit-alone rev c in ground arith

    tag_accepted_iff :
        is_commit_sha rev ≡ false
        → is_tag rev ≡ true
        → (check_revision_policy lib rev rp ≡ ok tt) ↔ (
            (rp.require_pinned_commit ≡ false)
            × (rp.allow_tags ≡ true)
            × (covered rp.allowed_tag_regex rev ≡ true))
    unfolding check_revision_policy
    tag_accepted_iff c t = let b = is_tag-not_branch rev t in (λ h. ground arith, λ h. ground arith)

    branch_accepted_iff :
        is_commit_sha rev ≡ false
        → is_tag rev ≡ false
        → (check_revision_policy lib rev rp ≡ ok tt) ↔ (
            (rp.require_pinned_commit ≡ false)
            × (rp.allow_branches ≡ true)
            × (covered rp.allowed_branch_regex rev ≡ true))
    unfolding check_revision_policy
    branch_accepted_iff c t =
        let b = is_branch_rest rev c t in (λ h. ground arith, λ h. ground arith)

    permits_of_accepted : check_revision_policy lib rev rp ≡ ok tt → PermitsRevision rp rev
    permits_of_accepted h = elim (Bool-cases (is_commit_sha rev)) [
      | inl c ↦ inl c
      | inr c ↦ elim (Bool-cases (is_tag rev)) [
        | inl t ↦
            let (r, a, k) = (tag_accepted_iff c t).0 h in
            inr (c, r, inl (t, a, (covered_iff rp.allowed_tag_regex rev).0 k))
        | inr t ↦
            let (r, a, k) = (branch_accepted_iff c t).0 h in
            inr (c, r, inr (t, a, (covered_iff rp.allowed_branch_regex rev).0 k))
      ]
    ]

    accepted_of_permits : PermitsRevision rp rev → check_revision_policy lib rev rp ≡ ok tt
    accepted_of_permits (inl c) = commit_accepted c
    accepted_of_permits (inr (c, r, inl (t, a, k))) =
        (tag_accepted_iff c t).1 (r, a, (covered_iff rp.allowed_tag_regex rev).1 k)
    accepted_of_permits (inr (c, r, inr (t, a, k))) =
        (branch_accepted_iff c t).1 (r, a, (covered_iff rp.allowed_branch_regex rev).1 k)

  -- `check_revision_policy` accepts a revision exactly when the policy permits it.
  pub check_revision_policy_iff :
      (rev : Text) (rp : RevisionPolicy)
      → (check_revision_policy lib rev rp ≡ ok tt) ↔ PermitsRevision rp rev
  check_revision_policy_iff rev rp = (permits_of_accepted rev rp, accepted_of_permits rev rp)
