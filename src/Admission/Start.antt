-- ===== src/Admission/Start.antt =====
-- `main` of cmd/admission-webhook/main.go up to the server. An error is the panic that it ends with.
use gitrepo_csi_driver.Base.{◌>>=◌, List, Result, ok, String, if◌then◌else◌, is_nil}
use gitrepo_csi_driver.Policy.Defaults.{load_policies}
use gitrepo_csi_driver.Policy.Types.{GitContentPolicy}
use gitrepo_csi_driver.Text.{Text, codes}

-- The evaluator's policies, and the server's address.
pub record Webhook : Type 0 where
  pub policies : List GitContentPolicy
  pub addr : Text

-- `getenv`
unfoldable pub get_env : (Text → Text) → String → Text → Text
get_env getenv name fallback = let v = getenv (codes name) in if is_nil v then fallback else v

module _ (getenv : Text → Text) (read_file : Text → Result Text)
    (unmarshal : Text → Result (List GitContentPolicy)) where
  unfoldable pub start_webhook : Result Webhook
  start_webhook = do
    policies ←
        load_policies read_file unmarshal
          (get_env getenv "GITCONTENT_POLICY_FILE" (codes "./examples/policies.yaml"))
    ok (record {
      policies = policies;
      addr = get_env getenv "GITCONTENT_ADMISSION_ADDR" (codes ":8443");
    })
