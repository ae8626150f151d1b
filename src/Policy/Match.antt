-- ===== src/Policy/Match.antt =====
-- The tests of pkg/policy/evaluator.go on repositories, hosts and patterns.
pub mod Laws
use gitrepo_csi_driver.Base.{
  ℕ, suc, Bool, true, false, ◌||◌, List, [], ◌∷◌, Option, none, some, if◌then◌else◌, is_nil, drop,
  take, any,
}
use gitrepo_csi_driver.Text.{Text, codes, same, has_prefix, index}
use gitrepo_csi_driver.Library.{Library, Url}

-- `contains`
unfoldable pub contains : List Text → Text → Bool
contains [] target = false
contains (v ∷ values) target = if same v target then true else contains values target

-- The text between the first '@' and the first ':' behind it, or none.
unfoldable pub scp_host : Text → Text
scp_host repo = elim (index repo b'@') [
  | none ↦ []
  | some at ↦
      let after = drop (suc at) repo in
      elim (index after b':') [ none ↦ [] | some c ↦ take c after ]
]

unfoldable pub has_url_scheme : Text → Bool
has_url_scheme repo =
    has_prefix repo (codes "ssh://")
    || has_prefix repo (codes "http://")
    || has_prefix repo (codes "https://")

module _ (lib : Library) where
  unfoldable pub host_from_repo : Text → Text
  host_from_repo repo =
      if has_url_scheme repo
      then elim (lib.url_parse repo) [ none ↦ scp_host repo | some u ↦ u.hostname ]
      else scp_host repo

  unfoldable pub matches_any_glob : List Text → Text → Bool
  matches_any_glob [] value = false
  matches_any_glob (p ∷ patterns) value =
      if lib.path_match p value then true else matches_any_glob patterns value

  -- `re.MatchString(value)`, false for a pattern that does not compile.
  abbrev pub regexp_match : Text → Text → Bool
  regexp_match raw value = elim (lib.regexp_compile raw) [ none ↦ false | some re ↦ re value ]

  unfoldable pub matches_any_regex : List Text → Text → Bool
  matches_any_regex [] value = false
  matches_any_regex (raw ∷ patterns) value =
      if regexp_match raw value then true else matches_any_regex patterns value
