-- ===== src/Materializer/Ref/Laws.antt =====
-- The ref that git is given is no option, whatever the revision kind says.
use gitrepo_csi_driver.Base.{◌≡◌, ◌⊎◌, inl, inr, refl, true, false, [], ◌∷◌, ok, arith, Bool-cases}
use gitrepo_csi_driver.Text.{Text, codes, has_prefix, trim_prefix, contains_any}
use gitrepo_csi_driver.Text.Search.{contains_any_prefix, trim_prefix-false}
use gitrepo_csi_driver.Volume.Revision.{
  is_hex_sha, ref_prefixes, strip_ref_prefix, is_safe_git_ref_name, validate_revision,
}
use gitrepo_csi_driver.Volume.Revision.Laws.{is_hex_sha-HasNoPrefix, disjoint_prefixes}
use gitrepo_csi_driver.Materializer.Ref.{mutable_ref_of, reject_git_flag_operand}

abbrev pub NotDash : Text → Type 0
NotDash s = has_prefix s (codes "-") ≡ false

-- A safe name begins with no dash and has no colon.
safe-NotDash : (name : Text) → is_safe_git_ref_name name ≡ true → NotDash name
unfolding is_safe_git_ref_name
safe-NotDash name h = ground arith

safe-no_colon :
    (name p : Text)
    → is_safe_git_ref_name name ≡ true
    → contains_any p (codes " ~^:?*[\\") ≡ true
    → has_prefix name p ≡ false
unfolding is_safe_git_ref_name
safe-no_colon name p h c = elim (Bool-cases (has_prefix name p)) [
  | inl k ↦ let e = contains_any_prefix name p (codes " ~^:?*[\\") k c in ground arith
  | inr k ↦ k
]

-- The parts of an accepted revision: a SHA, or a name that is safe without its prefix.
pub accepted_cases :
    (rev : Text)
    → validate_revision rev ≡ ok tt
    → NotDash rev
      × ((is_hex_sha rev ≡ true)
          ⊎ (is_safe_git_ref_name (strip_ref_prefix ref_prefixes rev) ≡ true))
unfolding validate_revision
accepted_cases rev h = (ground arith, ground arith)

-- What is left of an accepted revision without one of its prefixes is a safe name.
record IsAccepted (rev : Text) : Type 0 where
  dash : NotDash rev
  heads :
      has_prefix rev (codes "refs/heads/") ≡ true
      → is_safe_git_ref_name (trim_prefix rev (codes "refs/heads/")) ≡ true
  tags :
      has_prefix rev (codes "refs/tags/") ≡ true
      → is_safe_git_ref_name (trim_prefix rev (codes "refs/tags/")) ≡ true
  branch :
      has_prefix rev (codes "branch:") ≡ true
      → is_safe_git_ref_name (trim_prefix rev (codes "branch:")) ≡ true
  tag :
      has_prefix rev (codes "tag:") ≡ true
      → is_safe_git_ref_name (trim_prefix rev (codes "tag:")) ≡ true

hex-IsAccepted : (rev : Text) → is_hex_sha rev ≡ true → IsAccepted rev
hex-IsAccepted rev h =
    let n = is_hex_sha-HasNoPrefix rev h in
    let n1 = n.heads in
    let n2 = n.tags in
    let n3 = n.branch in
    let n4 = n.tag in
    record { dash = n.dash; heads = λ k. cc; tags = λ k. cc; branch = λ k. cc; tag = λ k. cc }

name-IsAccepted :
    (rev : Text)
    → NotDash rev
    → is_safe_git_ref_name (strip_ref_prefix ref_prefixes rev) ≡ true
    → IsAccepted rev
unfolding strip_ref_prefix has_prefix
name-IsAccepted rev d h = record {
  dash = d;
  heads = λ k. ground arith;
  tags = λ k.
      let k1 = disjoint_prefixes rev (codes "refs/tags/") (codes "refs/heads/") refl k in
      ground arith;
  branch = λ k.
      let k1 = disjoint_prefixes rev (codes "branch:") (codes "refs/heads/") refl k in
      let k2 = disjoint_prefixes rev (codes "branch:") (codes "refs/tags/") refl k in ground arith;
  tag = λ k.
      let k1 = disjoint_prefixes rev (codes "tag:") (codes "refs/heads/") refl k in
      let k2 = disjoint_prefixes rev (codes "tag:") (codes "refs/tags/") refl k in
      let k3 = disjoint_prefixes rev (codes "tag:") (codes "branch:") refl k in ground arith;
}

validate_revision-IsAccepted : (rev : Text) → validate_revision rev ≡ ok tt → IsAccepted rev
validate_revision-IsAccepted rev h =
    let c = accepted_cases rev h in
    elim (c.1) [ inl k ↦ hex-IsAccepted rev k | inr k ↦ name-IsAccepted rev (c.0) k ]

-- A prefix taken off an accepted revision leaves no dash in front.
trim_once :
    (rev b : Text)
    → NotDash rev
    → (has_prefix rev b ≡ true → is_safe_git_ref_name (trim_prefix rev b) ≡ true)
    → NotDash (trim_prefix rev b)
trim_once rev b d hb = elim (Bool-cases (has_prefix rev b)) [
  | inl k ↦ safe-NotDash (trim_prefix rev b) (hb k)
  | inr k ↦ rw (trim_prefix-false rev b k) d
]

-- Two prefixes taken off one after the other leave no dash in front.
trim_twice :
    (rev a b : Text)
    → NotDash rev
    → (has_prefix rev a ≡ true → is_safe_git_ref_name (trim_prefix rev a) ≡ true)
    → (has_prefix rev b ≡ true → is_safe_git_ref_name (trim_prefix rev b) ≡ true)
    → contains_any b (codes " ~^:?*[\\") ≡ true
    → NotDash (trim_prefix (trim_prefix rev a) b)
trim_twice rev a b d ha hb c = elim (Bool-cases (has_prefix rev a)) [
  | inl k ↦
      let safe = ha k in
      rw (trim_prefix-false (trim_prefix rev a) b (safe-no_colon (trim_prefix rev a) b safe c))
        (safe-NotDash (trim_prefix rev a) safe)
  | inr k ↦ rw (trim_prefix-false rev a k) (trim_once rev b d hb)
]

nil-NotDash : NotDash []
unfolding has_prefix
nil-NotDash = refl

tag_colon : contains_any (codes "tag:") (codes " ~^:?*[\\") ≡ true
unfolding contains_any
tag_colon = refl

branch_colon : contains_any (codes "branch:") (codes " ~^:?*[\\") ≡ true
unfolding contains_any
branch_colon = refl

-- The ref begins with no dash.
mutable_ref_of-NotDash :
    (kind rev : Text) → validate_revision rev ≡ ok tt → NotDash (mutable_ref_of kind rev)
unfolding mutable_ref_of
mutable_ref_of-NotDash kind rev h =
    let a = validate_revision-IsAccepted rev h in
    let d = a.dash in
    let tags =
      trim_twice rev (codes "refs/tags/") (codes "tag:") (a.dash) (a.tags) (a.tag) tag_colon in
    let heads =
      trim_twice rev (codes "refs/heads/") (codes "branch:") (a.dash) (a.heads) (a.branch)
        branch_colon in
    let nil = nil-NotDash in
    let h1 = λ (k : has_prefix rev (codes "refs/heads/") ≡ true).
      safe-NotDash (trim_prefix rev (codes "refs/heads/")) (a.heads k) in
    let h2 = λ (k : has_prefix rev (codes "refs/tags/") ≡ true).
      safe-NotDash (trim_prefix rev (codes "refs/tags/")) (a.tags k) in
    let h3 = λ (k : has_prefix rev (codes "branch:") ≡ true).
      safe-NotDash (trim_prefix rev (codes "branch:")) (a.branch k) in
    let h4 = λ (k : has_prefix rev (codes "tag:") ≡ true).
      safe-NotDash (trim_prefix rev (codes "tag:")) (a.tag k) in
    ground arith

-- A text without the dash is no option for `reject_git_flag_operand`.
reject_git_flag_operand-NotDash :
    (s : Text) (name : Text) → NotDash s → reject_git_flag_operand s name ≡ ok tt
unfolding reject_git_flag_operand has_prefix
reject_git_flag_operand-NotDash [] name d = refl
reject_git_flag_operand-NotDash (c ∷ s) name d = ground arith

-- git is never refused the ref that `mutableRef` makes of a revision which the validation accepts,
-- whatever the revision kind is: the ref begins with no dash, and `rejectGitFlagOperand` lets it pass.
pub reject_git_flag_operand-mutable_ref :
    (kind rev : Text) (name : Text)
    → validate_revision rev ≡ ok tt
    → NotDash (mutable_ref_of kind rev)
      × (reject_git_flag_operand (mutable_ref_of kind rev) name ≡ ok tt)
reject_git_flag_operand-mutable_ref kind rev name h =
    let d = mutable_ref_of-NotDash kind rev h in
    (d, reject_git_flag_operand-NotDash (mutable_ref_of kind rev) name d)
