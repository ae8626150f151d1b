-- ===== src/NodePlugin/Metrics.antt =====
-- The updates of metrics that cmd/nodeplugin/main.go makes: which collector, and with which label values.
pub mod Ready
pub mod Observed
use gitrepo_csi_driver.Base.{List, [], ◌∷◌, ◌++◌, if◌then◌else◌}
use gitrepo_csi_driver.Text.{Text, codes, same}
use gitrepo_csi_driver.Observability as Observability
use gitrepo_csi_driver.Observability.{Collector, Metrics, Update}
use gitrepo_csi_driver.NodePlugin.Pipeline.{
  Metric, observe_mount, policy_denial, cache_hit, cache_miss, repository_size, repository_files,
  Call, metric, materialize_call, write_metadata, mkdir_all, remove_all, symlink, evict_cache,
  copy_content_tree, chmod_read_only, Trace,
}

-- The values that a collector was updated with.
unfoldable pub values_of : Collector → List Update → List (List Text)
values_of c [] = []
values_of c (u ∷ us) =
    if same u.collector.name c.name then u.values ∷ values_of c us else values_of c us

module _ (m : Metrics) where
  unfoldable pub updates : Metric → List Update
  updates (observe_mount namespace policy outcome) =
      Observability.observe_mount m namespace policy (codes outcome)
  updates (policy_denial namespace policy code) =
      record { collector = m.policy_denials; values = namespace ∷ policy ∷ codes code ∷ [] } ∷ []
  updates (cache_hit host) = record { collector = m.cache_hits; values = host ∷ [] } ∷ []
  updates (cache_miss host) = record { collector = m.cache_misses; values = host ∷ [] } ∷ []
  updates (repository_size host bytes) =
      record { collector = m.repository_size; values = host ∷ [] } ∷ []
  updates (repository_files host files) =
      record { collector = m.repository_files; values = host ∷ [] } ∷ []

  unfoldable pub updates_by : Call → List Update
  updates_by (metric x) = updates x
  updates_by c = []

  -- All updates of a trace.
  unfoldable pub recorded : Trace → List Update
  recorded [] = []
  recorded (c ∷ trace) = updates_by c ++ recorded trace
