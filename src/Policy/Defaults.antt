-- ===== src/Policy/Defaults.antt =====
-- `applyPolicyDefaults` and `LoadPolicies` of pkg/policy/load.go, and `parseDuration` of
-- pkg/policy/types.go. The file system, the YAML parser and `time.ParseDuration` are parameters.
pub mod Laws
use gitrepo_csi_driver.Base.{
  ℕ, ◌*◌, List, map, if◌then◌else◌, is_nil, Option, none, some, Result, ok, err, ◌>>=◌, Error,
  errorf, wrapf, bytes, [],
}
use gitrepo_csi_driver.Base.Int.{ℤ, pos, leb_ℤ}
use gitrepo_csi_driver.Text.{Text}
use gitrepo_csi_driver.Text.Number.{atoi}
use gitrepo_csi_driver.Policy.Types.{ClonePolicy, GitContentPolicy}

-- `if v <= 0 { v = fallback }`
pub or_default : ℤ → ℤ → ℤ
or_default fallback v = if leb_ℤ v (pos 0) then fallback else v

-- 30 * time.Second
abbrev pub default_timeout : ℤ
default_timeout = pos (30 * 1000000000)

abbrev pub default_repository_size : ℤ
default_repository_size = pos (100 * 1024 * 1024)

unfoldable pub apply_policy_defaults : GitContentPolicy → GitContentPolicy
unfolding or_default
apply_policy_defaults p = record p {
  clone = record (p.clone) {
    default_depth = or_default (pos 1) p.clone.default_depth;
    max_depth = or_default (pos 10) p.clone.max_depth;
    timeout = or_default default_timeout p.clone.timeout;
    max_repository_size = or_default default_repository_size p.clone.max_repository_size;
    max_file_count = or_default (pos 5000) p.clone.max_file_count;
  };
  submodules = record (p.submodules) { max_depth = or_default (pos 1) p.submodules.max_depth };
}

-- A decoded JSON value, as far as `parseDuration` tells such values apart.
pub data RawTimeout : Type 0 where
  nil : RawTimeout
  string : Text → RawTimeout
  float64 : (truncated : ℤ) → RawTimeout
  json_number : Text → RawTimeout
  other_value : RawTimeout

abbrev wrap_parse : Error → Error
wrap_parse e = wrapf "parse clone timeout %q: %w" e

unfoldable pub parse_duration : (Text → Result ℤ) → RawTimeout → Result ℤ
parse_duration parse_text nil = ok (pos 0)
parse_duration parse_text (string v) =
    if is_nil v
    then ok (pos 0)
    else elim (parse_text v) [ ok d ↦ ok d | err e ↦ err (wrap_parse e) ]
parse_duration parse_text (float64 v) = ok v
parse_duration parse_text (json_number v) = elim (atoi v) [
  | some n ↦ ok n
  | none ↦ err (wrap_parse (errorf "strconv.ParseInt" []))
]
parse_duration parse_text other_value =
    err (errorf "clone timeout must be a duration string or integer nanoseconds" [])

-- `ClonePolicy.UnmarshalJSON`, from what `json.Unmarshal` gives: the fields, and the raw timeout.
unfoldable pub unmarshal_clone :
    (Text → Result ℤ) → Result (ClonePolicy × RawTimeout) → Result ClonePolicy
unmarshal_clone parse_text (err e) = err e
unmarshal_clone parse_text (ok (raw, timeout)) = elim (parse_duration parse_text timeout) [
  | err e ↦ err e
  | ok d ↦ ok (record raw { timeout = d })
]

-- What is done with the parsed document.
unfoldable pub load_parsed : Result (List GitContentPolicy) → Result (List GitContentPolicy)
load_parsed (err e) = err (wrapf "parse policies: %w" e)
load_parsed (ok policies) = ok (map apply_policy_defaults policies)

module _ (read_file : Text → Result Text) (unmarshal : Text → Result (List GitContentPolicy)) where
  unfoldable pub load_policies : Text → Result (List GitContentPolicy)
  load_policies path = elim (read_file path) [
    | err e ↦ err (wrapf "read policies: %w" e)
    | ok raw ↦ load_parsed (unmarshal raw)
  ]
