-- ===== src/Policy/Defaults/Laws.antt =====
-- Every policy that is loaded has positive limits.
use gitrepo_csi_driver.Base.{◌≡◌, List, [], ◌∷◌, map, Result, ok, err, ok_inj, wrapf, All, arith}
use mathlib.Core.Path.{subst}
use gitrepo_csi_driver.Base.Int.{ℤ, pos, ◌≤ℤ◌}
use gitrepo_csi_driver.Text.{Text}
use gitrepo_csi_driver.Policy.Types.{GitContentPolicy}
use gitrepo_csi_driver.Policy.Defaults.{
  or_default, apply_policy_defaults, load_policies, load_parsed, default_timeout,
  default_repository_size,
}

-- A policy whose limits are set.
pub record IsBounded (p : GitContentPolicy) : Type 0 where
  pub default_depth : pos 1 ≤ℤ p.clone.default_depth
  pub max_depth : pos 1 ≤ℤ p.clone.max_depth
  pub timeout : pos 1 ≤ℤ p.clone.timeout
  pub max_repository_size : pos 1 ≤ℤ p.clone.max_repository_size
  pub max_file_count : pos 1 ≤ℤ p.clone.max_file_count
  pub submodule_depth : pos 1 ≤ℤ p.submodules.max_depth

or_default_pos : (d v : ℤ) → pos 1 ≤ℤ d → pos 1 ≤ℤ or_default d v
unfolding or_default
or_default_pos d v h = ground arith

apply_policy_defaults-IsBounded : (p : GitContentPolicy) → IsBounded (apply_policy_defaults p)
unfolding apply_policy_defaults
apply_policy_defaults-IsBounded p = record {
  default_depth = or_default_pos (pos 1) p.clone.default_depth (omega arith);
  max_depth = or_default_pos (pos 10) p.clone.max_depth (omega arith);
  timeout = or_default_pos default_timeout p.clone.timeout (omega arith);
  max_repository_size =
      or_default_pos default_repository_size p.clone.max_repository_size (omega arith);
  max_file_count = or_default_pos (pos 5000) p.clone.max_file_count (omega arith);
  submodule_depth = or_default_pos (pos 1) p.submodules.max_depth (omega arith);
}

-- Limits that are set are kept.
or_default_keeps : (d v : ℤ) → pos 1 ≤ℤ v → or_default d v ≡ v
unfolding or_default
or_default_keeps d v h = ground arith

-- A policy with positive limits is left as it is: what the operator sets is not overridden.
pub apply_policy_defaults_id : (p : GitContentPolicy) → IsBounded p → apply_policy_defaults p ≡ p
unfolding apply_policy_defaults
apply_policy_defaults_id p b = λ i. record p {
  clone = record (p.clone) {
    default_depth = or_default_keeps (pos 1) p.clone.default_depth b.default_depth i;
    max_depth = or_default_keeps (pos 10) p.clone.max_depth b.max_depth i;
    timeout = or_default_keeps default_timeout p.clone.timeout b.timeout i;
    max_repository_size =
        or_default_keeps default_repository_size p.clone.max_repository_size b.max_repository_size
          i;
    max_file_count = or_default_keeps (pos 5000) p.clone.max_file_count b.max_file_count i;
  };
  submodules = record (p.submodules) {
    max_depth = or_default_keeps (pos 1) p.submodules.max_depth b.submodule_depth i;
  };
}

map-IsBounded : (ps : List GitContentPolicy) → All IsBounded (map apply_policy_defaults ps)
map-IsBounded [] = tt
map-IsBounded (p ∷ ps) = (apply_policy_defaults-IsBounded p, map-IsBounded ps)

loaded-IsBounded :
    (r : Result (List GitContentPolicy)) (policies : List GitContentPolicy)
    → load_parsed r ≡ ok policies
    → All IsBounded policies
unfolding load_parsed
loaded-IsBounded (err e) policies h = cc
loaded-IsBounded (ok ps) policies h = subst (All IsBounded) (ok_inj h) (map-IsBounded ps)

-- Every policy that `load_policies` returns has positive depths, limits and timeout.
pub load_policies-IsBounded :
    (read_file : Text → Result Text) (unmarshal : Text → Result (List GitContentPolicy))
    (path : Text) (policies : List GitContentPolicy)
    → load_policies read_file unmarshal path ≡ ok policies
    → All IsBounded policies
unfolding load_policies
load_policies-IsBounded read_file unmarshal path policies h = from_file (read_file path) h
  where
    from_file :
        (r : Result Text)
        → (elim r [
          | err e ↦ err (wrapf "read policies: %w" e)
          | ok raw ↦ load_parsed (unmarshal raw)
        ])
          ≡ ok policies
        → All IsBounded policies
    from_file (err e) k = cc
    from_file (ok raw) k = loaded-IsBounded (unmarshal raw) policies k
