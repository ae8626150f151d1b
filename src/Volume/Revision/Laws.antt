-- ===== src/Volume/Revision/Laws.antt =====
-- The prefixes of a revision exclude one another, and a commit SHA has none of them.
use gitrepo_csi_driver.Base.{◌≡◌, true, false, ◌||◌, [], ◌∷◌, arith, Bool-cases, inl, inr}
use gitrepo_csi_driver.Text.{Text, codes, has_prefix}
use gitrepo_csi_driver.Text.Search.{has_prefix-comparable}
use gitrepo_csi_driver.Volume.Revision.{is_hex_sha, is_hex_digit}

pub disjoint_prefixes :
    (rev p q : Text)
    → (has_prefix p q || has_prefix q p) ≡ false
    → has_prefix rev p ≡ true
    → has_prefix rev q ≡ false
disjoint_prefixes rev p q d h = elim (Bool-cases (has_prefix rev q)) [
  | inl k ↦ let e = has_prefix-comparable rev p q h k in cc
  | inr k ↦ k
]

-- A commit SHA has no prefix of a branch or a tag.
pub record HasNoPrefix (rev : Text) : Type 0 where
  pub heads : has_prefix rev (codes "refs/heads/") ≡ false
  pub tags : has_prefix rev (codes "refs/tags/") ≡ false
  pub branch : has_prefix rev (codes "branch:") ≡ false
  pub tag : has_prefix rev (codes "tag:") ≡ false
  pub dash : has_prefix rev (codes "-") ≡ false

pub is_hex_sha-HasNoPrefix : (rev : Text) → is_hex_sha rev ≡ true → HasNoPrefix rev
unfolding is_hex_sha is_hex_digit has_prefix
is_hex_sha-HasNoPrefix [] h = cc
is_hex_sha-HasNoPrefix (c ∷ []) h = ground arith
is_hex_sha-HasNoPrefix (c ∷ d ∷ s) h = record {
  heads = ground arith;
  tags = ground arith;
  branch = ground arith;
  tag = ground arith;
  dash = ground arith;
}
