-- ===== src/Observability.antt =====
-- pkg/observability/metrics.go: the collectors of the node plugin, and how they are registered. The
-- Prometheus client is a parameter.
pub mod Laws
use gitrepo_csi_driver.Base.{
  String, Bool, true, false, List, [], ◌∷◌, Option, none, some, if◌then◌else◌, map,
}
use gitrepo_csi_driver.Text.{Text, codes}

pub data Kind : Type 0 where
  counter : Kind
  gauge : Kind
  histogram : Kind

-- A `prometheus.CounterVec`, `GaugeVec` or `HistogramVec`: its name and the names of its labels.
pub record Collector : Type 0 where
  pub kind : Kind
  pub name : Text
  pub labels : List Text

-- `Metrics`, without its `once`.
pub record Metrics : Type 0 where
  pub mount_requests : Collector
  pub mount_duration : Collector
  pub clone_duration : Collector
  pub cache_hits : Collector
  pub cache_misses : Collector
  pub policy_denials : Collector
  pub repository_size : Collector
  pub repository_files : Collector
  pub submodule_requests : Collector
  pub credential_errors : Collector

abbrev collector : Kind → String → List String → Collector
collector kind name labels = record { kind = kind; name = codes name; labels = map codes labels }

abbrev mount_labels : List String
mount_labels = "namespace" ∷ "policy" ∷ "result" ∷ []

-- `NewMetrics`
unfoldable pub new_metrics : Metrics
new_metrics = record {
  mount_requests = collector counter "gitcontent_mount_requests_total" mount_labels;
  mount_duration = collector histogram "gitcontent_mount_duration_seconds" mount_labels;
  clone_duration = collector histogram "gitcontent_clone_duration_seconds" ("host" ∷ "result" ∷ []);
  cache_hits = collector counter "gitcontent_cache_hits_total" ("host" ∷ []);
  cache_misses = collector counter "gitcontent_cache_misses_total" ("host" ∷ []);
  policy_denials =
      collector counter "gitcontent_policy_denials_total" ("namespace" ∷ "policy" ∷ "reason" ∷ []);
  repository_size = collector gauge "gitcontent_repository_size_bytes" ("host" ∷ []);
  repository_files = collector gauge "gitcontent_repository_files_total" ("host" ∷ []);
  submodule_requests = collector counter "gitcontent_submodule_requests_total" mount_labels;
  credential_errors =
      collector counter "gitcontent_credentials_errors_total" ("profile" ∷ "reason" ∷ []);
}

-- What `Register` hands to `prometheus.MustRegister`.
unfoldable pub collectors : Metrics → List Collector
collectors m =
    m.mount_requests ∷ m.mount_duration ∷ m.clone_duration ∷ m.cache_hits ∷ m.cache_misses
    ∷ m.policy_denials ∷ m.repository_size ∷ m.repository_files ∷ m.submodule_requests
    ∷ m.credential_errors ∷ []

-- A metric that is brought up to date: the collector, and the values of `WithLabelValues`.
pub record Update : Type 0 where
  pub collector : Collector
  pub values : List Text

-- `ObserveMount`, without the duration.
unfoldable pub observe_mount : Metrics → Text → Text → Text → List Update
observe_mount m namespace policy outcome =
    record { collector = m.mount_requests; values = namespace ∷ policy ∷ outcome ∷ [] }
    ∷ record { collector = m.mount_duration; values = namespace ∷ policy ∷ outcome ∷ [] }
    ∷ []

-- The Prometheus client's default registry: the collectors that it holds, and `MustRegister`, where
-- `none` is its panic.
pub record Prometheus : Type 1 where
  pub Registry : Type 0
  pub held : Registry → List Collector
  pub must_register : Registry → List Collector → Option Registry

module _ (p : Prometheus) where
  -- The registry and the flag of `sync.Once`.
  pub record Registration : Type 0 where
    pub done : Bool
    pub registry : p.Registry

  abbrev registered : Option p.Registry → Option Registration
  registered none = none
  registered (some registry) = some (record { done = true; registry = registry })

  -- `Register`, where `none` is a panic.
  unfoldable pub register : Metrics → Registration → Option Registration
  register m r = if r.done then some r else registered (p.must_register r.registry (collectors m))

  -- What `Handler` does before `promhttp.Handler`.
  unfoldable pub handler : Metrics → Registration → Option Registration
  handler m r = register m r
