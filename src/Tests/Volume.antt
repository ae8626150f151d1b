-- ===== src/Tests/Volume.antt =====
-- `Parse` of pkg/volume/attributes.go and its parts, on inputs of their unit tests.
use gitrepo_csi_driver.Volume.Laws.{IsValid, parse-IsValid}
use gitrepo_csi_driver.Base.{
  ◌≡◌, refl, false, [], ◌∷◌, ok, err, errorf, Option, none, some, if◌then◌else◌,
}
use gitrepo_csi_driver.Base.Int.{pos}
use gitrepo_csi_driver.Library.{Url}
use gitrepo_csi_driver.Paths.{
  clean_parts, go_down, parts, render_parts, resolve, resolve_part, clean, is_parent, parse_path,
  render, is_abs,
}
use gitrepo_csi_driver.Text.{
  cons_head, has_suffix, join, split, trim_prefix, index, contains_any, same, contains, Text, codes,
  has_prefix,
}
use gitrepo_csi_driver.Text.Number.{atoi, read_number, to_lower}
use gitrepo_csi_driver.Text.Space.{space_width, drop_spaces, trim_left, trim_right, trim_space}
use gitrepo_csi_driver.Volume.{attribute, get, Attributes, StringMap, parse}
use gitrepo_csi_driver.Volume.Options.{
  parse_bool, parse_depth, parse_lfs, parse_refresh, parse_submodules,
}
use gitrepo_csi_driver.Volume.Repo.{check_url, colon_inside, is_scp_after, is_scp, validate_repo}
use gitrepo_csi_driver.Volume.RepoPath.{check_cleaned, has_git_path_segment, normalize_repo_path}
use gitrepo_csi_driver.Volume.RepoPath.Laws.{IsRepoPath, normalize_repo_path_iff}
use gitrepo_csi_driver.Volume.Revision.{
  is_hex_digit, is_hex_sha, is_safe_git_ref_name, is_unsafe_part, strip_ref_prefix,
  validate_revision,
}

-- A URL parser that knows one host.
abbrev pub url_parse : Text → Option Url
url_parse s =
    if has_prefix s (codes "https://github.com/")
    then some (record { scheme = codes "https"; hostname = codes "github.com" })
    else none

abbrev pub volume : StringMap
volume =
    (codes "repo", codes "https://github.com/acme/configs.git")
    ∷ (codes "revision", codes "refs/heads/main")
    ∷ (codes "depth", codes "5")
    ∷ (codes "path", codes "apps/./payments/")
    ∷ (codes "lfs", codes "No")
    ∷ []

abbrev pub volume_attributes : Attributes
volume_attributes = record {
  repo = codes "https://github.com/acme/configs.git";
  revision = codes "refs/heads/main";
  revision_kind = [];
  path = codes "apps/payments";
  depth = pos 5;
  submodules = false;
  lfs = false;
  policy = [];
  credential_profile = [];
  refresh_seconds = pos 0;
}

pub parsed_volume : parse url_parse volume ≡ ok volume_attributes
unfolding parse attribute trim_space trim_right drop_spaces trim_left get same space_width
    has_prefix validate_repo contains_any contains check_url validate_revision is_hex_sha
    is_safe_git_ref_name strip_ref_prefix clean clean_parts go_down is_abs is_parent parse_path
    parts render render_parts resolve resolve_part atoi read_number to_lower cons_head has_suffix
    index join split trim_prefix parse_bool parse_depth parse_lfs parse_refresh parse_submodules
    colon_inside is_scp is_scp_after check_cleaned has_git_path_segment normalize_repo_path
    is_hex_digit is_unsafe_part
parsed_volume = refl

no_revision :
    parse url_parse
      ((codes "repo", codes "git@github.com:acme/configs.git") ∷ (codes "revision", codes " ") ∷ [])
    ≡ err (errorf "volume attribute revision is required" [])
unfolding parse attribute trim_space trim_right drop_spaces trim_left get same space_width
    has_prefix
no_revision = refl

unsafe_revision :
    parse url_parse (
      (codes "repo", codes "git@github.com:acme/configs.git")
      ∷ (codes "revision", codes "a..b")
      ∷ [])
    ≡ err (errorf "volume attribute revision must be a safe git ref name or commit SHA" [])
unfolding parse attribute trim_space trim_right drop_spaces trim_left get same space_width
    has_prefix validate_repo contains_any contains is_scp is_scp_after index colon_inside
    validate_revision is_hex_sha is_safe_git_ref_name strip_ref_prefix has_suffix
unsafe_revision = refl

local_repo :
    parse url_parse
      ((codes "repo", codes "file:///tmp/repo") ∷ (codes "revision", codes "main") ∷ [])
    ≡ err (errorf "volume attribute repo must be a remote http, https, or ssh repository URL" [])
unfolding parse attribute trim_space trim_right drop_spaces trim_left get same space_width
    has_prefix validate_repo contains_any
local_repo = refl

zero_depth :
    parse url_parse (
      (codes "repo", codes "git@github.com:acme/configs.git")
      ∷ (codes "revision", codes "main")
      ∷ (codes "depth", codes "0")
      ∷ [])
    ≡ err (errorf "volume attribute depth must be a positive integer" [])
unfolding parse attribute trim_space trim_right drop_spaces trim_left get same space_width
    has_prefix validate_repo contains_any contains is_scp is_scp_after index colon_inside
    validate_revision is_hex_sha is_safe_git_ref_name strip_ref_prefix has_suffix split
    is_unsafe_part normalize_repo_path parse_depth atoi
zero_depth = refl

accepted_path : normalize_repo_path (codes "a/../b//./c") ≡ ok (codes "b/c")
unfolding normalize_repo_path contains is_abs check_cleaned same clean render parse_path is_parent
    has_git_path_segment
accepted_path = refl

escaping_path :
    normalize_repo_path (codes "a/../../b")
    ≡ err (errorf "volume attribute path must stay within the repository" [])
unfolding normalize_repo_path contains is_abs check_cleaned same clean render parse_path is_parent
escaping_path = refl

git_path :
    normalize_repo_path (codes "a/.git/config")
    ≡ err (errorf "volume attribute path must not reference .git" [])
unfolding normalize_repo_path contains is_abs check_cleaned same clean render parse_path is_parent
    has_git_path_segment
git_path = refl

normalize_repo_path_iff_example : IsRepoPath (codes "a/../b//./c") (codes "b/c")
normalize_repo_path_iff_example =
    (normalize_repo_path_iff (codes "a/../b//./c") (codes "b/c")).0 accepted_path

parse-IsValid_example : IsValid url_parse volume volume_attributes
parse-IsValid_example = parse-IsValid url_parse volume volume_attributes parsed_volume
