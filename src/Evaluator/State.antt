-- ===== src/Evaluator/State.antt =====
-- The state of the HealthEvaluator of agent/collector/evaluator.go, and what it asks of the cluster.
use compute_sentry.Prelude.{
  Bool, true, false, Option, none, some, String, List, [], ◌∷◌, ◌==◌, ◌||◌, not, if◌then◌else◌,
  maybe, string_eq, length, ltb, ◌++◌, ℕ,
}
use compute_sentry.Prelude.Int.{ℤ, pos, wrap64, ◌*ℤ◌}
use compute_sentry.Prelude.Text.{Text, codes, join_slash, text_eq}
use compute_sentry.Prelude.Map
use compute_sentry.Prelude.Map.{Map}
use compute_sentry.Api.{GovernanceConfig}
use compute_sentry.Api.Codec.{Codec}
use compute_sentry.Objects.{Pod, annotation}
use compute_sentry.Collector.{MetricEvent}

-- A time.Time is the nanoseconds since Go's zero time, and a time.Duration is nanoseconds.
abbrev pub zero_time : ℤ
zero_time = pos 0

abbrev pub recovery_multiplier : ℤ
recovery_multiplier = pos 3

abbrev pub governance_config_annotation : String
governance_config_annotation = "compute-sentry.aiguard.io/governance-config"

abbrev pub health_annotation : String
health_annotation = "compute-sentry.aiguard.io/health"

abbrev pub unknown : Text
unknown = codes "unknown"

abbrev pub chan_capacity : ℕ
chan_capacity = 1000

-- `has_client` says that `k8sClient` is not nil, `metrics_chan` is the buffer of `metricsChan`, and
-- `stopped` that `stopChan` is closed.
pub record HealthEvaluator : Type 0 where
  pub window_size : ℤ
  pub error_count_limit : ℤ
  pub threshold_us : ℤ
  pub violation_times : Map Text (List ℤ)
  pub last_seen_times : Map Text ℤ
  pub unhealthy_pods : Map Text Bool
  pub pod_configs : Map Text GovernanceConfig
  pub has_client : Bool
  pub node_name : Text
  pub metrics_chan : List MetricEvent
  pub stopped : Bool

-- time.Duration(n) * time.Second
unfoldable pub seconds : ℤ → ℤ
unfolding wrap64 ◌*ℤ◌
seconds n = wrap64 (n *ℤ pos 1_000_000_000)

unfoldable pub new_health_evaluator : ℤ → ℤ → ℤ → HealthEvaluator
unfolding seconds
new_health_evaluator window_size_sec error_count_limit threshold_us = record {
  window_size = seconds window_size_sec;
  error_count_limit = error_count_limit;
  threshold_us = threshold_us;
  violation_times = [];
  last_seen_times = [];
  unhealthy_pods = [];
  pod_configs = [];
  has_client = false;
  node_name = [];
  metrics_chan = [];
  stopped = false;
}

-- What a read of a map gives on a missing key: nil, and false.
unfoldable pub times_of : Text → Map Text (List ℤ) → List ℤ
times_of key m = maybe (Map.lookup key m) [] (λ times. times)

unfoldable pub flag_of : Text → Map Text Bool → Bool
flag_of key m = maybe (Map.lookup key m) false (λ flag. flag)

-- A merge patch of the health annotation, sent to the API server.
pub record PatchCall : Type 0 where
  pub name : Text
  pub namespace : Text
  pub status : String

abbrev pub is_unnamed : Text → Bool
is_unnamed name = name == [] || name == unknown

-- The calls that `markPodStatus` makes. It only logs an error of the call.
unfoldable pub mark_pod_status : HealthEvaluator → Text → Text → String → List PatchCall
mark_pod_status e name namespace status =
    if not e.has_client || is_unnamed name
    then []
    else record { name = name; namespace = namespace; status = status } ∷ []

-- podConfigs[namespace/name] = config
unfoldable pub cache : HealthEvaluator → Text → Text → GovernanceConfig → HealthEvaluator
cache e namespace name config = record e {
  pod_configs = Map.insert (join_slash namespace name) config e.pod_configs;
}

-- The configuration in a pod's annotation; `none` where it is missing or does not parse.
unfoldable pub annotated_config : Codec → Pod → Option GovernanceConfig
annotated_config codec pod =
    maybe (annotation governance_config_annotation pod) none
      (λ config_str. codec.unmarshal config_str)

-- `fetchAndCachePodConfig`, with the response of the Get call, if it is made; `none` is an error.
unfoldable pub fetch_and_cache_pod_config :
    Codec → HealthEvaluator → Text → Text → Option Pod → HealthEvaluator × Option GovernanceConfig
unfolding cache
fetch_and_cache_pod_config codec e namespace name none = (e, none)
fetch_and_cache_pod_config codec e namespace name (some pod) =
    if e.has_client
    then maybe (annotated_config codec pod) (e, none)
        (λ config. (cache e namespace name config, some config))
    else (e, none)

-- The loop of `syncNodePods`.
unfoldable pub cache_all : Codec → List Pod → HealthEvaluator → HealthEvaluator
cache_all codec [] e = e
cache_all codec (pod ∷ pods) e =
    cache_all codec pods
      (maybe (annotated_config codec pod) e (λ config. cache e pod.namespace pod.name config))

-- `syncNodePods`, with the response of the List call, if it is made; `none` is an error.
unfoldable pub sync_node_pods : Codec → HealthEvaluator → Option (List Pod) → HealthEvaluator
sync_node_pods codec e none = e
sync_node_pods codec e (some pods) =
    if not e.has_client || is_unnamed e.node_name then e else cache_all codec pods e

pub data StartError : Type 0 where
  no_cluster_config no_clientset : StartError

-- `Start`, up to the two goroutines that it leaves running: whether the in-cluster configuration and
-- the clientset were obtained, and the response of the first List call.
unfoldable pub start :
    Codec
    → Text
    → Bool
    → Bool
    → Option (List Pod)
    → HealthEvaluator
    → HealthEvaluator × Option StartError
start codec node_name in_cluster clientset response e =
    let named = record e { node_name = node_name } in
    if not in_cluster
    then (named, some no_cluster_config)
    else if not clientset
    then (named, some no_clientset)
    else (sync_node_pods codec (record named { has_client = true }) response, none)

-- `Stop`. A second Stop, which would panic at the closed channel, is left out.
unfoldable pub stop : HealthEvaluator → HealthEvaluator
stop e = record e { stopped = true }

unfoldable pub set_k8s_client : Bool → HealthEvaluator → HealthEvaluator
set_k8s_client client e = record e { has_client = client }

unfoldable pub set_node_name : Text → HealthEvaluator → HealthEvaluator
set_node_name node_name e = record e { node_name = node_name }

-- The send of the agent's main loop, which skips the event when the buffer is full.
unfoldable pub offer : MetricEvent → HealthEvaluator → HealthEvaluator
offer event e =
    if ltb (length e.metrics_chan) chan_capacity
    then record e { metrics_chan = e.metrics_chan ++ event ∷ [] }
    else e
