-- ===== src/Volume/Revision.antt =====
-- `validateRevision` of pkg/volume/attributes.go.
pub mod Laws
use gitrepo_csi_driver.Base.{
  ℕ, Bool, true, false, not, ◌||◌, ◌&&◌, List, [], ◌∷◌, if◌then◌else◌, is_nil, any, all, length,
  Result, ok, err, errorf, String, ltb, ◌==◌,
}
use gitrepo_csi_driver.Text.{
  Text, codes, slash, same, has_prefix, has_suffix, trim_prefix, contains, contains_any, split,
}
use gitrepo_csi_driver.Paths.{dot, dotdot}

-- `(ch >= '0' && ch <= '9') || (ch >= 'a' && ch <= 'f')`. The loop of the source goes over runes;
-- a byte of a longer rune is no digit either.
unfoldable pub is_hex_digit : ℕ → Bool
is_hex_digit ch = not ((ltb ch b'0' || ltb b'9' ch) && (ltb ch b'a' || ltb b'f' ch))

-- `isHexSHA`; pkg/policy and pkg/materializer have the same test under other names.
unfoldable pub is_hex_sha : Text → Bool
is_hex_sha rev = length rev == 40 && all is_hex_digit rev

abbrev pub ref_prefixes : List Text
ref_prefixes = codes "refs/heads/" ∷ codes "refs/tags/" ∷ codes "branch:" ∷ codes "tag:" ∷ []

-- The loop that takes off the first prefix that fits.
unfoldable pub strip_ref_prefix : List Text → Text → Text
strip_ref_prefix [] rev = rev
strip_ref_prefix (prefix ∷ prefixes) rev =
    if has_prefix rev prefix then trim_prefix rev prefix else strip_ref_prefix prefixes rev

unfoldable pub is_unsafe_part : Text → Bool
is_unsafe_part part =
    is_nil part
    || same part dot
    || same part dotdot
    || has_prefix part dot
    || has_suffix part (codes ".lock")

unfoldable pub is_safe_git_ref_name : Text → Bool
is_safe_git_ref_name name =
    if is_nil name
      || has_prefix name (codes "-")
      || has_prefix name (codes "/")
      || has_suffix name (codes "/")
    then false
    else if contains name (codes "//") || contains name (codes "..") || contains name (codes "@{")
    then false
    else if contains_any name (codes " ~^:?*[\\")
        || has_suffix name (codes ".")
        || has_suffix name (codes ".lock")
    then false
    else not (any is_unsafe_part (split name slash))

unfoldable pub validate_revision : Text → Result (Unit {0})
validate_revision rev =
    if contains_any rev (0 ∷ codes " \t\r\n")
    then err
        (errorf "volume attribute revision must not contain whitespace or control characters" [])
    else if has_prefix rev (codes "-")
    then err (errorf "volume attribute revision must not start with '-'" [])
    else if is_hex_sha rev
    then ok tt
    else if not (is_safe_git_ref_name (strip_ref_prefix ref_prefixes rev))
    then err (errorf "volume attribute revision must be a safe git ref name or commit SHA" [])
    else ok tt
