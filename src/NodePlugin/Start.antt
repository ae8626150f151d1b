-- ===== src/NodePlugin/Start.antt =====
-- `main` of cmd/nodeplugin/main.go up to the servers: what it reads of its environment, and what it makes
-- of that. An error is the panic that it ends with.
use gitrepo_csi_driver.Base.{
  ◌>>=◌, List, ◌*◌, String, Result, ok, err, errorf, bytes, [], ◌∷◌, ◌||◌, if◌then◌else◌, is_nil,
}
use gitrepo_csi_driver.Base.Int.{pos}
use gitrepo_csi_driver.Cache.Key.{Config, new_manager}
use gitrepo_csi_driver.Materializer.GitCommand.{new}
use gitrepo_csi_driver.Materializer.GoGit.Run.{Owner, new_go_git}
use gitrepo_csi_driver.Policy.Defaults.{load_policies}
use gitrepo_csi_driver.Policy.Types.{GitContentPolicy}
use gitrepo_csi_driver.Text.{Text, codes, same}

-- What `main` asks of the system, of YAML, and of `exec.LookPath`.
pub record Outside : Type 0 where
  pub getenv : Text → Text
  pub hostname : Result Text
  pub read_file : Text → Result Text
  pub unmarshal : Text → Result (List GitContentPolicy)
  pub mkdir_all : Text → Result (Unit {0})
  pub look_path : Result Text

-- A `materializer.Backend`: the git binary's with its path, or go-git's with the content's owner.
pub data Backend : Type 0 where
  git_binary : (git_path : Text) → Backend
  go_git : (owner : Owner) → Backend

pub record Settings : Type 0 where
  pub policies : List GitContentPolicy
  pub cache : Config
  pub backend : Backend
  pub target_root : Text
  pub http_addr : Text
  pub endpoint : Text
  pub node_id : Text

-- `getenv`
unfoldable pub get_env : (Text → Text) → String → Text → Text
get_env getenv name fallback = let v = getenv (codes name) in if is_nil v then fallback else v

-- `hostname`
unfoldable pub host_name : Result Text → Text
host_name (err e) = codes "unknown"
host_name (ok name) = if is_nil name then codes "unknown" else name

module _ (outside : Outside) where
  -- `newMaterializer`
  unfoldable pub new_materializer : Text → Result Backend
  new_materializer backend =
      if same backend (codes "git")
      then new outside.look_path >>= (λ git_path. ok (git_binary git_path))
      else if same backend (codes "go-git") || is_nil backend
      then new_go_git (outside.getenv (codes "GITCONTENT_GIT_RUN_AS_UID"))
          (outside.getenv (codes "GITCONTENT_GIT_RUN_AS_GID"))
        >>= (λ owner. ok (go_git owner))
      else err (
          errorf "unknown GITCONTENT_BACKEND %q: must be \"go-git\" or \"git\""
            (bytes backend ∷ []))

  -- The cache's configuration: 10 GiB, and 24 hours in nanoseconds.
  unfoldable pub cache_config : Config
  cache_config = record {
    root_dir = get_env outside.getenv "GITCONTENT_CACHE_DIR" (codes "/tmp/gitcontent-cache");
    max_size = pos (10 * 1024 * 1024 * 1024);
    max_age = pos (24 * 3600 * 1000000000);
  }

  -- `main`, up to the two servers; `Register` of the metrics is in Observability.
  unfoldable pub start : Result Settings
  start = do
    policies ←
        load_policies outside.read_file outside.unmarshal
          (get_env outside.getenv "GITCONTENT_POLICY_FILE" (codes "./examples/policies.yaml"))
    cache ← new_manager outside.mkdir_all cache_config
    backend ← new_materializer (get_env outside.getenv "GITCONTENT_BACKEND" (codes "go-git"))
    ok (record {
      policies = policies;
      cache = cache;
      backend = backend;
      target_root = get_env outside.getenv "GITCONTENT_TARGET_ROOT" (codes "/var/lib/kubelet");
      http_addr = get_env outside.getenv "GITCONTENT_ADDR" (codes ":8080");
      endpoint = get_env outside.getenv "CSI_ENDPOINT" (codes "unix:///csi/csi.sock");
      node_id = get_env outside.getenv "NODE_ID" (host_name outside.hostname);
    })
