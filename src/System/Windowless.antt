-- ===== src/System/Windowless.antt =====
-- A policy without a window, from its admission to the agent.
use compute_sentry.Prelude.{Bool, true, Option, none, some, String, List, [], ◌≡◌, refl, All, arith}
use compute_sentry.Prelude.Int.{ℤ, pos, ◌≤ℤ◌}
use compute_sentry.Prelude.Text.{Text, text_beq_refl, until_nul, join_slash, text_eq}
use compute_sentry.Prelude.Map
use compute_sentry.Prelude.Map.{Map, lookup-insert}
use compute_sentry.Api.{GovernanceConfig, ComputeSentryPolicy}
use compute_sentry.Api.Codec.{Codec, IsRepresentable}
use compute_sentry.Api.Json.Config.{marshal_config}
use compute_sentry.Api.Json.RoundTrip.{json_codec}
use compute_sentry.Objects.{Pod}
use compute_sentry.Collector.{MetricEvent}
use compute_sentry.Policies.{admit}
use compute_sentry.Evaluator.{
  HealthEvaluator, annotated_config, cache, fetch_and_cache_pod_config, process_event, times_of,
  flag_of,
}
use compute_sentry.Evaluator.Marking.{key_of, after}
use compute_sentry.Evaluator.Unset.{no_window-never_flags}
use compute_sentry.Mutator.{match_policy, gov_config, governance_of, inject}
use compute_sentry.Mutator.Governance.{annotated_config-inject, written-json_codec}

fetch-cached :
    (codec : Codec) (e : HealthEvaluator) (namespace name : Text) (pod : Pod)
    (config : GovernanceConfig)
    → e.has_client ≡ true
    → annotated_config codec pod ≡ some config
    → fetch_and_cache_pod_config codec e namespace name (some pod)
      ≡ (cache e namespace name config, some config)
unfolding fetch_and_cache_pod_config
fetch-cached codec e namespace name pod config client read = rw (client, read) refl

cached-lookup :
    (e : HealthEvaluator) (namespace name : Text) (config : GovernanceConfig)
    → Map.lookup (join_slash namespace name) (cache e namespace name config).pod_configs
      ≡ some config
unfolding cache
cached-lookup e namespace name config = ground (
  arith,
  lookup-insert (join_slash namespace name) (join_slash namespace name) config e.pod_configs,
  text_beq_refl (join_slash namespace name),
)

admit_lem :
    (Error : Type 0) {Selector : Type 0} (old : Option (ComputeSentryPolicy Selector))
    (policy : ComputeSentryPolicy Selector)
    → admit Error old policy ≡ some policy
unfolding admit
admit_lem Error none policy = refl
admit_lem Error (some old) policy = refl

-- A policy that leaves the window out passes its own webhooks as it is, whether it is created or
-- updated, and makes the agent blind to its pods: when the agent has fetched the configuration of a pod
-- that the policy is injected into, no event of the pod flags it, and none makes a call, as long as the
-- policy's limit is not negative, its numbers are int64 and the clock does not run back.
pub windowless_policy-never_flags :
    (Error : Type 0) {Selector : Type 0} (matches : Selector → Map String String → Option Bool)
    (old : Option (ComputeSentryPolicy Selector)) (policies : List (ComputeSentryPolicy Selector))
    (policy : ComputeSentryPolicy Selector) (pod : Pod) (e : HealthEvaluator) (event : MetricEvent)
    (response : Option Pod) (now later : ℤ)
    → policy.spec.eval_config.window_size ≡ pos 0
    → pos 0 ≤ℤ policy.spec.eval_config.error_count_limit
    → IsRepresentable (gov_config policy)
    → match_policy matches pod.labels policies ≡ some policy
    → e.has_client ≡ true
    → now ≤ℤ later
    → All (λ t. t ≤ℤ later) (times_of (key_of event) e.violation_times)
    → (let injected =
          inject json_codec.marshal
            (governance_of (match_policy matches pod.labels policies))
            pod in
        let fetched =
          (fetch_and_cache_pod_config json_codec e
            (until_nul event.pod_namespace)
            (until_nul event.pod_name)
            (some injected)).0 in
        (admit Error old policy ≡ some policy)
        × (flag_of (key_of event) (after json_codec fetched event response now later).unhealthy_pods
            ≡ flag_of (key_of event) e.unhealthy_pods)
        × ((process_event json_codec fetched event response now later).1 ≡ []))
unfolding gov_config governance_of cache
windowless_policy-never_flags Error matches old policies policy pod e event response now later unset
      limit fits chosen client order past =
    let config = gov_config policy in
    let namespace = until_nul event.pod_namespace in
    let name = until_nul event.pod_name in
    rw
      (
        chosen,
        fetch-cached json_codec e namespace name (inject json_codec.marshal (some config) pod)
            config client
            (annotated_config-inject json_codec config (marshal_config config) fits
              (written-json_codec config) pod),
      )
      (let calm =
          no_window-never_flags json_codec (cache e namespace name config) event response now later
            config (cached-lookup e namespace name config) unset limit order past in
        (admit_lem Error old policy, calm.0, calm.1))
