-- ===== src/Evaluator/Process.antt =====
-- `processEvent` of agent/collector/evaluator.go.
use compute_sentry.Prelude.{
  Bool, ℕ, true, Option, none, some, List, [], ◌∷◌, ◌&&◌, ◌++◌, ◌||◌, not, if◌then◌else◌, maybe,
  tally,
}
use compute_sentry.Prelude.Int.{ℤ, pos, wrap64, neg, ◌+ℤ◌, ltb_ℤ, int_beq}
use compute_sentry.Prelude.Text.{Text, join_slash, until_nul, text_eq}
use compute_sentry.Prelude.Map
use compute_sentry.Prelude.Map.{Map}
use compute_sentry.Api.{GovernanceConfig}
use compute_sentry.Api.Codec.{Codec}
use compute_sentry.Objects.{Pod}
use compute_sentry.Collector.{MetricEvent, nccl_all_reduce}
use compute_sentry.Evaluator.State.{
  HealthEvaluator, PatchCall, seconds, times_of, flag_of, is_unnamed, mark_pod_status,
  fetch_and_cache_pod_config,
}

-- `threshold`, `window` and `limit`
pub record Limits : Type 0 where
  pub threshold : ℤ
  pub window : ℤ
  pub limit : ℤ

-- The pod's configuration, or the evaluator's defaults.
unfoldable pub limits_of : HealthEvaluator → Option GovernanceConfig → Limits
limits_of e none = record {
  threshold = e.threshold_us;
  window = e.window_size;
  limit = e.error_count_limit;
}
limits_of e (some config) = record {
  threshold = config.thresholds.max_nccl_latency_us;
  window = seconds config.eval_config.window_size;
  limit = config.eval_config.error_count_limit;
}

-- t.After(now.Add(-window))
unfoldable pub is_within : ℤ → ℤ → ℤ → Bool
is_within now window t = ltb_ℤ (now +ℤ wrap64 (neg window)) t

-- `countViolationsLocked`, with its own reading of the clock.
unfoldable pub count_violations : HealthEvaluator → Text → ℤ → ℤ → ℕ
count_violations e key window now = tally (is_within now window) (times_of key e.violation_times)

unfoldable pub add_violation : HealthEvaluator → Text → ℤ → HealthEvaluator
add_violation e key now = record e {
  violation_times = Map.insert key (times_of key e.violation_times ++ now ∷ []) e.violation_times;
}

-- int64(violations) > limit && !e.unhealthyPods[podKey]
unfoldable pub turns_unhealthy : HealthEvaluator → Text → Limits → ℤ → Bool
turns_unhealthy e key limits now =
    ltb_ℤ limits.limit (pos (count_violations e key limits.window now))
    && not (flag_of key e.unhealthy_pods)

-- The last critical section: `now` is when the event was taken, `later` when the count is made.
unfoldable pub evaluate :
    HealthEvaluator → Limits → Text → Text → ℤ → ℤ → ℤ → HealthEvaluator × List PatchCall
evaluate e limits namespace name duration_us now later =
    let key = join_slash namespace name in
    let added = add_violation e key now in
    if not (ltb_ℤ limits.threshold duration_us)
    then (e, [])
    else if turns_unhealthy added key limits later
    then (
      record added { unhealthy_pods = Map.insert key true added.unhealthy_pods },
      mark_pod_status added name namespace "unhealthy",
    )
    else (added, [])

-- The first critical section: the pod's entry in `lastSeenTimes`, and its configuration, if cached.
abbrev pub see : HealthEvaluator → Text → ℤ → HealthEvaluator × Option GovernanceConfig
see e key now = (
  record e { last_seen_times = Map.insert key now e.last_seen_times },
  Map.lookup key e.pod_configs,
)

-- The first critical section, and the fetch of a configuration that is not cached, whose store is a
-- critical section of its own.
unfoldable pub look_up :
    Codec
    → HealthEvaluator
    → Text
    → Text
    → Option Pod
    → ℤ
    → HealthEvaluator × Option GovernanceConfig
look_up codec e namespace name response now =
    let seen = see e (join_slash namespace name) now in
    maybe seen.1 (fetch_and_cache_pod_config codec seen.0 namespace name response)
      (λ config. (seen.0, some config))

-- What follows the guards on the event's type and name.
unfoldable pub process_named :
    Codec
    → HealthEvaluator
    → Text
    → Text
    → ℤ
    → Option Pod
    → ℤ
    → ℤ
    → HealthEvaluator × List PatchCall
process_named codec e namespace name duration_us response now later =
    let found = look_up codec e namespace name response now in
    evaluate found.0 (limits_of found.0 found.1) namespace name duration_us now later

-- `processEvent`. `response` is what the Get call gives, if it is made.
unfoldable pub process_event :
    Codec → HealthEvaluator → MetricEvent → Option Pod → ℤ → ℤ → HealthEvaluator × List PatchCall
process_event codec e event response now later =
    let name = until_nul event.pod_name in
    let namespace = until_nul event.pod_namespace in
    if not (int_beq event.type nccl_all_reduce) || is_unnamed name
    then (e, [])
    else process_named codec e namespace name event.duration_us response now later
