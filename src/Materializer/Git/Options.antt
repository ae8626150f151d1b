-- ===== src/Materializer/Git/Options.antt =====
-- Which arguments of a command git may read as options.
use gitrepo_csi_driver.Base.{
  ℕ, zero, suc, ◌+◌, ◌/◌, ◌%◌, ◌≡◌, refl, Bool, true, false, ◌||◌, List, [], ◌∷◌, if◌then◌else◌,
  any, all, arith, ltb, Bool-cases, inl, inr,
}
use gitrepo_csi_driver.Base.Int.{ℤ, pos, negsuc, ◌≤ℤ◌}
use gitrepo_csi_driver.Text.{Text, codes, same, has_prefix, contains}
use gitrepo_csi_driver.Text.Itoa.{digits, itoa}
use gitrepo_csi_driver.Volume.{Attributes}
use gitrepo_csi_driver.Volume.Revision.{is_hex_digit, is_hex_sha}
use gitrepo_csi_driver.Materializer.Ref.{is_pinned_commit}
use gitrepo_csi_driver.Materializer.Ref.Laws.{NotDash}
use gitrepo_csi_driver.Materializer.Argv.{
  git_args, clone_args, clone_commit_args, fetch_args, rev_parse_args, max,
}

-- The arguments that begin with a dash, up to the separator behind which git reads operands only.
unfoldable pub options : List Text → List Text
options [] = []
options (a ∷ rest) =
    let later = options rest in
    if same a (codes "--") || same a (codes "--end-of-options")
    then []
    else if has_prefix a (codes "-")
    then a ∷ later
    else later

-- The options that the driver gives.
abbrev pub own_options : List Text
own_options =
    codes "-c"
    ∷ codes "--no-checkout"
    ∷ codes "--depth"
    ∷ codes "--branch"
    ∷ codes "--prune"
    ∷ codes "--tags"
    ∷ codes "--detach"
    ∷ codes "--init"
    ∷ codes "--verify"
    ∷ []

unfoldable pub has_own_options : List Text → Bool
has_own_options args = all (λ o. any (λ own. same o own) own_options) (options args)

-- What a checkout checks out is a commit.
unfoldable pub checks_out_commit : List Text → Bool
checks_out_commit [] = true
checks_out_commit (a ∷ []) = true
checks_out_commit (a ∷ b ∷ []) = true
checks_out_commit (a ∷ b ∷ c ∷ rest) =
    if same a (codes "checkout") then is_pinned_commit c else true

same-NotDash : (s p : Text) → NotDash s → same s (b'-' ∷ p) ≡ false
unfolding same has_prefix
same-NotDash [] p d = refl
same-NotDash (c ∷ s) p d = ground arith

-- An operand that begins with no dash is no option.
pub options-operand : (a : Text) (rest : List Text) → NotDash a → options (a ∷ rest) ≡ options rest
unfolding options
options-operand a rest d =
    rw (d, same-NotDash a (codes "-") d, same-NotDash a (codes "-end-of-options") d, options) refl

digits-NotDash : (fuel n : ℕ) (s : Text) → NotDash s → NotDash (digits fuel n s)
unfolding digits has_prefix
digits-NotDash zero n s d = d
digits-NotDash (suc fuel) n s d =
    let c : NotDash ((b'0' + n % 10) ∷ s) = (unfold has_prefix in ground arith) in
    let later = digits-NotDash fuel (n / 10) ((b'0' + n % 10) ∷ s) c in
    elim (Bool-cases (ltb n 10)) [ inl e ↦ rw (e) c | inr e ↦ rw (e) later ]

nil-NotDash : NotDash []
unfolding has_prefix
nil-NotDash = refl

-- A number that is not negative has no sign.
pub itoa-NotDash : (n : ℤ) → pos 0 ≤ℤ n → NotDash (itoa n)
unfolding itoa
itoa-NotDash (pos n) h = digits-NotDash 19 n [] nil-NotDash
itoa-NotDash (negsuc n) h = absurd (omega arith)

pub sha-NotDash : (s : Text) → is_hex_sha s ≡ true → NotDash s
unfolding is_hex_sha has_prefix is_hex_digit
sha-NotDash [] h = refl
sha-NotDash (c ∷ s) h = ground arith

-- Arguments with the driver's options only, which check out nothing but a commit.
abbrev pub IsOwn : List Text → Type 0
IsOwn args = (has_own_options (git_args args) ≡ true) × (checks_out_commit args ≡ true)

module _ (depth : ℤ) (d : pos 0 ≤ℤ depth) where
  pub clone_commit_args-IsOwn :
      (repo repo_dir : Text) → IsOwn (clone_commit_args depth repo repo_dir)
  unfolding has_own_options options git_args clone_commit_args same has_prefix checks_out_commit
  clone_commit_args-IsOwn repo repo_dir = (
    rw (options-operand (itoa depth) (codes "--" ∷ repo ∷ repo_dir ∷ []) (itoa-NotDash depth d))
        refl,
    refl,
  )

  pub clone_args-IsOwn :
      (ref repo repo_dir : Text) → NotDash ref → IsOwn (clone_args depth ref repo repo_dir)
  unfolding has_own_options options git_args clone_args same has_prefix checks_out_commit
  clone_args-IsOwn [] repo repo_dir r = (
    rw (options-operand (itoa depth) (codes "--" ∷ repo ∷ repo_dir ∷ []) (itoa-NotDash depth d))
        refl,
    refl,
  )
  clone_args-IsOwn (c ∷ ref) repo repo_dir r = (
    rw
        (
          options-operand (itoa depth)
              (codes "--branch" ∷ (c ∷ ref) ∷ codes "--" ∷ repo ∷ repo_dir ∷ [])
              (itoa-NotDash depth d),
          options-operand (c ∷ ref) (codes "--" ∷ repo ∷ repo_dir ∷ []) r,
        )
        refl,
    refl,
  )

  pub submodule_args-IsOwn :
      IsOwn
        (codes "submodule" ∷ codes "update" ∷ codes "--init" ∷ codes "--depth" ∷ itoa depth ∷ [])
  unfolding has_own_options options git_args same has_prefix checks_out_commit
  submodule_args-IsOwn = (rw (options-operand (itoa depth) [] (itoa-NotDash depth d)) refl, refl)

max-nonneg : (a b : ℤ) → pos 0 ≤ℤ a → pos 0 ≤ℤ b → pos 0 ≤ℤ max a b
max-nonneg a b h k = ground arith

pub fetch_args-IsOwn :
    (attrs : Attributes) (ref : Text)
    → pos 0 ≤ℤ attrs.depth
    → NotDash ref
    → IsOwn (fetch_args attrs ref)
unfolding has_own_options options git_args fetch_args same has_prefix checks_out_commit
fetch_args-IsOwn attrs ref d r =
    let n =
      itoa-NotDash (max (pos 1) attrs.depth) (max-nonneg (pos 1) attrs.depth (omega arith) d) in
    elim (Bool-cases (contains attrs.revision_kind (codes "tag"))) [
      | inl e ↦
          rw
            (
              e,
              options-operand (itoa (max (pos 1) attrs.depth))
                  (codes "--tags" ∷ codes "origin" ∷ ref ∷ []) n,
              options-operand ref [] r,
            )
            (refl, refl)
      | inr e ↦
          rw
            (
              e,
              options-operand (itoa (max (pos 1) attrs.depth)) (codes "origin" ∷ ref ∷ []) n,
              options-operand ref [] r,
            )
            (refl, refl)
    ]

pub rev_parse_args-IsOwn : (ref : Text) → IsOwn (rev_parse_args ref)
unfolding has_own_options options git_args rev_parse_args same has_prefix checks_out_commit
rev_parse_args-IsOwn ref = (refl, refl)

pub head_args-IsOwn : IsOwn (codes "rev-parse" ∷ codes "HEAD" ∷ [])
unfolding has_own_options options git_args same has_prefix checks_out_commit
head_args-IsOwn = (refl, refl)

pub checkout_args-IsOwn :
    (sha : Text)
    → is_pinned_commit sha ≡ true
    → IsOwn (codes "checkout" ∷ codes "--detach" ∷ sha ∷ [])
unfolding has_own_options options git_args same has_prefix checks_out_commit
checkout_args-IsOwn sha h = (rw (options-operand sha [] (sha-NotDash sha h)) refl, h)
