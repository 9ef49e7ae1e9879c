-- ===== src/Evaluator/Invariant.antt =====
-- What holds of the evaluator between two inputs of its loops.
pub mod Sweeps
pub mod Runs
use compute_sentry.Prelude.{
  ℕ, ◌+◌, ◌≤◌, Bool, true, false, Option, none, some, List, [], ◌∷◌, ◌++◌, ◌≡◌, ◌≢◌, refl, ap,
  arith, inl, inr, All, length, length-append, Option-cases, Bool-cases, if_ind, maybe_ind,
  if◌then◌else◌,
}
use compute_sentry.Prelude.Int.{ℤ}
use compute_sentry.Prelude.Text.{Text, join_slash, until_nul, text_eq, split_slash}
use compute_sentry.Prelude.Map
use compute_sentry.Prelude.Map.{
  Map, HasKeysOnce, insert-HasKeysOnce, erase-HasKeysOnce, insert-All, erase-All,
}
use compute_sentry.Api.{GovernanceConfig}
use compute_sentry.Api.Codec.{Codec}
use compute_sentry.Objects.{Pod}
use compute_sentry.Collector.{MetricEvent}
use compute_sentry.Evaluator.{
  HealthEvaluator, PatchCall, new_health_evaluator, chan_capacity, times_of, annotated_config,
  cache, cache_all, fetch_and_cache_pod_config, sync_node_pods, start, stop, offer, Limits,
  limits_of, evaluate, add_violation, look_up, process_named, process_event, sweep_violations,
  keep_or_recover, forget_stale, sweep_stale, recover_parts, recover_pods, cleaned,
  check_recovery_and_cleanup, Input, send, receive, tick, sync, close, take_event, react, idle,
  step, run,
}

-- Each map has a key once, a pod on record has violations, the flags on record are set, and the
-- channel holds no more than its buffer.
pub record IsWellFormed (e : HealthEvaluator) : Type 0 where
  pub violations : HasKeysOnce e.violation_times
  pub recorded : All (λ entry. entry.1 ≢ []) e.violation_times
  pub last_seen : HasKeysOnce e.last_seen_times
  pub unhealthy : HasKeysOnce e.unhealthy_pods
  pub flagged : All (λ entry. entry.1 ≡ true) e.unhealthy_pods
  pub configs : HasKeysOnce e.pod_configs
  pub buffered : length e.metrics_chan ≤ chan_capacity

-- The invariant of the state that a step gives beside its result.
abbrev HoldsOf : HealthEvaluator × Option GovernanceConfig → Type 0
HoldsOf r = IsWellFormed r.0

abbrev pub HoldsAfter : HealthEvaluator × List PatchCall → Type 0
HoldsAfter r = IsWellFormed r.0

pub new-IsWellFormed :
    (window limit threshold : ℤ) → IsWellFormed (new_health_evaluator window limit threshold)
unfolding new_health_evaluator
new-IsWellFormed window limit threshold = ground arith

module _ (codec : Codec) where
  cache-IsWellFormed :
      (e : HealthEvaluator) (namespace name : Text) (config : GovernanceConfig)
      → IsWellFormed e
      → IsWellFormed (cache e namespace name config)
  unfolding cache
  cache-IsWellFormed e namespace name config w = record {
    violations = w.violations;
    recorded = w.recorded;
    last_seen = w.last_seen;
    unhealthy = w.unhealthy;
    flagged = w.flagged;
    configs = insert-HasKeysOnce (join_slash namespace name) config e.pod_configs w.configs;
    buffered = w.buffered;
  }

  fetch-IsWellFormed :
      (e : HealthEvaluator) (namespace name : Text) (response : Option Pod)
      → IsWellFormed e
      → IsWellFormed (fetch_and_cache_pod_config codec e namespace name response).0
  unfolding fetch_and_cache_pod_config
  fetch-IsWellFormed e namespace name none w = w
  fetch-IsWellFormed e namespace name (some pod) w =
      if_ind HoldsOf _
        (maybe_ind HoldsOf (annotated_config codec pod) w
          (λ config. cache-IsWellFormed e namespace name config w))
        w

  cache_all-IsWellFormed :
      (pods : List Pod) (e : HealthEvaluator)
      → IsWellFormed e
      → IsWellFormed (cache_all codec pods e)
  unfolding cache_all
  cache_all-IsWellFormed [] e w = w
  cache_all-IsWellFormed (pod ∷ pods) e w = cache_all-IsWellFormed pods _ (
      maybe_ind IsWellFormed (annotated_config codec pod) w
        (λ config. cache-IsWellFormed e pod.namespace pod.name config w))

  pub sync-IsWellFormed :
      (e : HealthEvaluator) (response : Option (List Pod))
      → IsWellFormed e
      → IsWellFormed (sync_node_pods codec e response)
  unfolding sync_node_pods
  sync-IsWellFormed e none w = w
  sync-IsWellFormed e (some pods) w = if_ind IsWellFormed _ w (cache_all-IsWellFormed pods e w)

  look_up-IsWellFormed :
      (e : HealthEvaluator) (namespace name : Text) (response : Option Pod) (now : ℤ)
      → IsWellFormed e
      → IsWellFormed (look_up codec e namespace name response now).0
  unfolding look_up
  look_up-IsWellFormed e namespace name response now w =
      let key = join_slash namespace name in
      let seen = record e { last_seen_times = Map.insert key now e.last_seen_times } in
      let w' : IsWellFormed seen = record {
        violations = w.violations;
        recorded = w.recorded;
        last_seen = insert-HasKeysOnce key now e.last_seen_times w.last_seen;
        unhealthy = w.unhealthy;
        flagged = w.flagged;
        configs = w.configs;
        buffered = w.buffered;
      } in
      maybe_ind HoldsOf (Map.lookup key e.pod_configs)
        (fetch-IsWellFormed seen namespace name response w') (λ config. w')

snoc≢nil {ℓ} : {A : Type ℓ} (xs : List A) (x : A) → xs ++ x ∷ [] ≢ []
snoc≢nil [] x h = cc
snoc≢nil (y ∷ ys) x h = cc

add_violation-IsWellFormed :
    (e : HealthEvaluator) (key : Text) (now : ℤ)
    → IsWellFormed e
    → IsWellFormed (add_violation e key now)
unfolding add_violation
add_violation-IsWellFormed e key now w = record {
  violations = insert-HasKeysOnce key _ e.violation_times w.violations;
  recorded = insert-All (λ entry. entry.1 ≢ []) key _ e.violation_times (snoc≢nil _ now) w.recorded;
  last_seen = w.last_seen;
  unhealthy = w.unhealthy;
  flagged = w.flagged;
  configs = w.configs;
  buffered = w.buffered;
}

flag-IsWellFormed :
    (e : HealthEvaluator) (key : Text)
    → IsWellFormed e
    → IsWellFormed (record e { unhealthy_pods = Map.insert key true e.unhealthy_pods })
flag-IsWellFormed e key w = record {
  violations = w.violations;
  recorded = w.recorded;
  last_seen = w.last_seen;
  unhealthy = insert-HasKeysOnce key true e.unhealthy_pods w.unhealthy;
  flagged = insert-All (λ entry. entry.1 ≡ true) key true e.unhealthy_pods refl w.flagged;
  configs = w.configs;
  buffered = w.buffered;
}

evaluate-IsWellFormed :
    (e : HealthEvaluator) (limits : Limits) (namespace name : Text) (duration_us now later : ℤ)
    → IsWellFormed e
    → IsWellFormed (evaluate e limits namespace name duration_us now later).0
unfolding evaluate
evaluate-IsWellFormed e limits namespace name duration_us now later w =
    let key = join_slash namespace name in
    let added = add_violation-IsWellFormed e key now w in
    if_ind HoldsAfter _ w (if_ind HoldsAfter _ (flag-IsWellFormed _ key added) added)

-- Handling an event keeps the invariant.
pub process_event-IsWellFormed :
    (codec : Codec) (e : HealthEvaluator) (event : MetricEvent) (response : Option Pod)
    (now later : ℤ)
    → IsWellFormed e
    → IsWellFormed (process_event codec e event response now later).0
unfolding process_event process_named
process_event-IsWellFormed codec e event response now later w = if_ind HoldsAfter _ w (
    evaluate-IsWellFormed _ _ _ _ event.duration_us now later
      (look_up-IsWellFormed codec e _ _ response now w))
