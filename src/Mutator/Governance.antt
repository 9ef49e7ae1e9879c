-- ===== src/Mutator/Governance.antt =====
-- The policy's numbers on their way from the webhook to the agent.
use compute_sentry.Prelude.{Bool, true, Option, none, some, String, List, ◌≡◌, refl, string_eq}
use compute_sentry.Prelude.Int.{ℤ}
use compute_sentry.Prelude.Text.{Text, join_slash, text_eq}
use compute_sentry.Prelude.Map
use compute_sentry.Prelude.Map.{Map}
use compute_sentry.Api.{GovernanceConfig, ComputeSentryPolicy}
use compute_sentry.Api.Codec.{Codec, IsRepresentable}
use compute_sentry.Api.Json.Config.{marshal_config}
use compute_sentry.Api.Json.RoundTrip.{json_codec}
use compute_sentry.Objects.{Pod}
use compute_sentry.Evaluator.{
  HealthEvaluator, seconds, annotated_config, fetch_and_cache_pod_config, limits_of, look_up,
}
use compute_sentry.Mutator.{
  match_policy, gov_config, governance_of, inject_spec, annotate, annotate_config, inject,
  injected_annotation, governance_config_annotation,
}
use compute_sentry.Mutator.Reinvocation.{annotation-annotate}

module _ (codec : Codec) (config : GovernanceConfig) (text : String) (fits : IsRepresentable config)
    (written : codec.marshal config ≡ some text) where
  -- The agent reads from an injected pod the configuration that the webhook wrote.
  pub annotated_config-inject :
      (pod : Pod) → annotated_config codec (inject codec.marshal (some config) pod) ≡ some config
  unfolding annotated_config inject annotate_config
  annotated_config-inject pod =
      rw
        (
          written,
          annotation-annotate governance_config_annotation governance_config_annotation text
              (annotate injected_annotation "true" (inject_spec (some config) pod)),
        )
        (codec.round_trip config text fits written)

pub written-json_codec :
    (config : GovernanceConfig) → json_codec.marshal config ≡ some (marshal_config config)
unfolding json_codec
written-json_codec config = refl

-- The agent judges an injected pod by the policy that the webhook chose: at the first event of a pod
-- whose configuration is not cached, if the Get call gives the injected pod, the limits are the policy's,
-- whatever int64 numbers it holds.
pub limits-injected :
    {Selector : Type 0} (matches : Selector → Map String String → Option Bool)
    (policies : List (ComputeSentryPolicy Selector)) (policy : ComputeSentryPolicy Selector)
    (pod : Pod) (e : HealthEvaluator) (namespace name : Text) (now : ℤ)
    → match_policy matches pod.labels policies ≡ some policy
    → IsRepresentable (gov_config policy)
    → Map.lookup (join_slash namespace name) e.pod_configs ≡ none
    → e.has_client ≡ true
    → (let injected =
          inject json_codec.marshal
            (governance_of (match_policy matches pod.labels policies))
            pod in
        let (e', config) = look_up json_codec e namespace name (some injected) now in
        limits_of e' config ≡ record {
          threshold = policy.spec.thresholds.max_nccl_latency_us;
          window = seconds policy.spec.eval_config.window_size;
          limit = policy.spec.eval_config.error_count_limit;
        })
unfolding look_up fetch_and_cache_pod_config limits_of gov_config governance_of
limits-injected matches policies policy pod e namespace name now chosen fits absent client =
    rw
      (
        chosen,
        absent,
        client,
        annotated_config-inject json_codec (gov_config policy) (marshal_config (gov_config policy))
            fits (written-json_codec (gov_config policy)) pod,
      )
      refl
