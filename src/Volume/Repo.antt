-- ===== src/Volume/Repo.antt =====
-- `validateRepo` of pkg/volume/attributes.go.
use gitrepo_csi_driver.Base.{
  ℕ, suc, ◌+◌, Bool, false, ◌||◌, ◌&&◌, [], ◌∷◌, if◌then◌else◌, is_nil, drop, length, Result, ok,
  err, errorf, bytes, Option, none, some, String, ltb,
}
use gitrepo_csi_driver.Library.{Url}
use gitrepo_csi_driver.Text.{Text, codes, same, has_prefix, contains, contains_any, index}

-- `strings.HasPrefix` of a literal.
abbrev pub begins : Text → String → Bool
begins s prefix = has_prefix s (codes prefix)

-- The scheme of a repository URL.
unfoldable pub check_url : Option Url → Result (Unit {0})
unfolding same
check_url none = err (errorf "volume attribute repo must be a valid remote repository URL" [])
check_url (some u) =
    if is_nil u.hostname
    then err (errorf "volume attribute repo must be a valid remote repository URL" [])
    else if same u.scheme (codes "http")
        || same u.scheme (codes "https")
        || same u.scheme (codes "ssh")
    then ok tt
    else err (errorf "volume attribute repo scheme %q is not supported" (bytes u.scheme ∷ []))

-- `colon > 0 && colon < len(after)-1`; -1 is `none`.
unfoldable pub colon_inside : Text → Option ℕ → Bool
colon_inside after none = false
colon_inside after (some colon) = ltb 0 colon && ltb (colon + 1) (length after)

-- The scp-like form, `user@host:path`.
unfoldable pub is_scp_after : Text → Option ℕ → Bool
is_scp_after repo none = false
is_scp_after repo (some at) =
    let after = drop (suc at) repo in ltb 0 at && colon_inside after (index after b':')

unfoldable pub is_scp : Text → Bool
is_scp repo = is_scp_after repo (index repo b'@')

module _ (url_parse : Text → Option Url) where
  unfoldable pub validate_repo : Text → Result (Unit {0})
  validate_repo repo =
      if begins repo "-"
      then err (errorf "volume attribute repo must not start with '-'" [])
      else if contains_any repo (codes " \t\r\n")
      then err (errorf "volume attribute repo must not contain whitespace" [])
      else if begins repo "file://" || begins repo "/" || begins repo "./" || begins repo "../"
      then err
          (errorf "volume attribute repo must be a remote http, https, or ssh repository URL" [])
      else if contains repo (codes "://")
      then check_url (url_parse repo)
      else if is_scp repo
      then ok tt
      else err
          (errorf "volume attribute repo must be a remote http, https, or ssh repository URL" [])
