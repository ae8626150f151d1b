-- ===== src/Policy/Types.antt =====
-- pkg/policy/types.go. An `int` or `int64` is a ℤ, a duration a ℤ of nanoseconds.
use gitrepo_csi_driver.Base.{Bool, false, List, [], String, Error}
use gitrepo_csi_driver.Base.Int.{ℤ, pos}
use gitrepo_csi_driver.Text.{Text}

pub record RevisionPolicy : Type 0 where
  pub require_pinned_commit : Bool
  pub allow_branches : Bool
  pub allow_tags : Bool
  pub allowed_branch_regex : List Text
  pub allowed_tag_regex : List Text

pub record ClonePolicy : Type 0 where
  pub default_depth : ℤ
  pub max_depth : ℤ
  pub timeout : ℤ
  pub max_repository_size : ℤ
  pub max_file_count : ℤ
  pub allow_sparse_checkout : Bool

pub record SubmodulePolicy : Type 0 where
  pub enabled : Bool
  pub recursive : Bool
  pub max_depth : ℤ
  pub allowed_repositories : List Text
  pub allowed_hosts : List Text

pub record LfsPolicy : Type 0 where
  pub enabled : Bool
  pub max_object_size : ℤ
  pub max_total_size : ℤ

pub record CredentialPolicy : Type 0 where
  pub default_profile : Text
  pub allowed_profiles : List Text

pub record GitContentPolicy : Type 0 where
  pub name : Text
  pub allowed_repositories : List Text
  pub allowed_hosts : List Text
  pub revisions : RevisionPolicy
  pub clone : ClonePolicy
  pub submodules : SubmodulePolicy
  pub lfs : LfsPolicy
  pub credentials : CredentialPolicy
  pub namespaces : List Text
  pub labels : List (Text × Text)
  pub annotations : List (Text × Text)

-- `GitContentPolicy{}`
abbrev pub zero_policy : GitContentPolicy
zero_policy = record {
  name = [];
  allowed_repositories = [];
  allowed_hosts = [];
  revisions = record {
    require_pinned_commit = false;
    allow_branches = false;
    allow_tags = false;
    allowed_branch_regex = [];
    allowed_tag_regex = [];
  };
  clone = record {
    default_depth = pos 0;
    max_depth = pos 0;
    timeout = pos 0;
    max_repository_size = pos 0;
    max_file_count = pos 0;
    allow_sparse_checkout = false;
  };
  submodules = record {
    enabled = false;
    recursive = false;
    max_depth = pos 0;
    allowed_repositories = [];
    allowed_hosts = [];
  };
  lfs = record { enabled = false; max_object_size = pos 0; max_total_size = pos 0 };
  credentials = record { default_profile = []; allowed_profiles = [] };
  namespaces = [];
  labels = [];
  annotations = [];
}

pub record Request : Type 0 where
  pub namespace : Text
  pub repo : Text
  pub revision : Text
  pub path : Text
  pub depth : ℤ
  pub submodules : Bool
  pub lfs : Bool
  pub credential_profile : Text

-- `Result`; a denial's reason is kept as the format and the arguments of its text.
pub record Verdict : Type 0 where
  pub allowed : Bool
  pub resolved_profile : Text
  pub denial_reason_code : String
  pub denial_reason : Error
