-- ===== src/NodePlugin/Metrics/Ready.antt =====
-- No use of a metric panics.
use gitrepo_csi_driver.Base.{
  All-map, List, ◌≡◌, inl, inr, refl, true, false, [], ◌∷◌, ◌++◌, some, length, All, Any,
}
use gitrepo_csi_driver.NodePlugin.Metrics.{
  write_metadata, materialize_call, repository_files, repository_size, cache_miss, cache_hit,
  policy_denial, metric, observe_mount, updates, updates_by,
}
use gitrepo_csi_driver.NodePlugin.Pipeline.{
  write_metadata, mkdir_all, remove_all, symlink, evict_cache, copy_content_tree, chmod_read_only,
  Call,
}
use gitrepo_csi_driver.Observability.{
  Collector, Metrics, new_metrics, collectors, Update, Prometheus, Registration, register, handler,
}
use gitrepo_csi_driver.Observability.Laws.{
  distinct, apart, distinct-append, collectors-distinct, collectors-is_valid, Registers,
  register_done, handler_done,
}
use gitrepo_csi_driver.Observability as Observability

-- What `WithLabelValues` asks of an update, or it panics: a value for each label. And the collector is
-- one that `/metrics` shows.
abbrev pub IsAccepted : List Collector → Update → Type 0
IsAccepted held u = Any (λ c. c ≡ u.collector) held × (length u.values ≡ length u.collector.labels)

abbrev ours : List Collector
ours = collectors new_metrics

accepted : (c : Call) → All (IsAccepted ours) (updates_by new_metrics c)
unfolding updates_by updates collectors Observability.observe_mount new_metrics
accepted (metric (observe_mount namespace policy outcome)) =
    ((inl refl, refl), ((inr (inl refl), refl), tt))
accepted (metric (policy_denial namespace policy code)) =
    ((inr (inr (inr (inr (inr (inl refl))))), refl), tt)
accepted (metric (cache_hit host)) = ((inr (inr (inr (inl refl))), refl), tt)
accepted (metric (cache_miss host)) = ((inr (inr (inr (inr (inl refl)))), refl), tt)
accepted (metric (repository_size host bytes)) =
    ((inr (inr (inr (inr (inr (inr (inl refl)))))), refl), tt)
accepted (metric (repository_files host files)) =
    ((inr (inr (inr (inr (inr (inr (inr (inl refl))))))), refl), tt)
accepted (materialize_call attrs pol work_dir) = tt
accepted (write_metadata root inputs) = tt
accepted (mkdir_all path) = tt
accepted (remove_all path) = tt
accepted (symlink old new) = tt
accepted evict_cache = tt
accepted (copy_content_tree source target) = tt
accepted (chmod_read_only root) = tt

Any-append_right : (P : Collector → Type 0) (xs ys : List Collector) → Any P ys → Any P (xs ++ ys)
Any-append_right P [] ys h = h
Any-append_right P (x ∷ xs) ys h = inr (Any-append_right P xs ys h)

-- If the names that the registry holds differ from each other and from those of the ten collectors,
-- registering the collectors, and again where `/metrics` is set up, does not panic; behind that each update
-- that the plugin makes is of a collector in the registry, and gives one value for each of its labels.
pub register-IsAccepted :
    (p : Prometheus) (r : p.Registry)
    → Registers p
    → distinct (p.held r) ≡ true
    → apart (p.held r) (collectors new_metrics) ≡ true
    → (s : Registration p) × (register p new_metrics (record { done = false; registry = r })
        ≡ some s)
      × (handler p new_metrics s ≡ some s)
      × ((c : Call) → All (IsAccepted (p.held s.registry)) (updates_by new_metrics c))
register-IsAccepted p r registers d a =
    let (s, h, done, held) =
      register_done p registers new_metrics r
        (distinct-append (p.held r) ours d collectors-distinct a) collectors-is_valid in
    (
      s,
      h,
      handler_done p registers new_metrics s done,
      λ c.
          All-map (λ u a. rw held (Any-append_right _ (p.held r) ours a.0, a.1))
            (updates_by new_metrics c) (accepted c),
    )
