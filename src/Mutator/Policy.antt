-- ===== src/Mutator/Policy.antt =====
-- The policy that matches a pod, whether the pod is injected, and the precheck's variables.
use compute_sentry.Prelude.{
  Bool, false, not, Option, none, some, String, List, [], ◌∷◌, ◌++◌, maybe, ◌==◌, string_eq,
  if◌then◌else◌,
}
use compute_sentry.Prelude.Int.{ℤ, pos, int_beq}
use compute_sentry.Prelude.Map.{Map}
use compute_sentry.Prelude.Decimal.{decimal}
use compute_sentry.Api.{ComputeSentryPolicy, GovernanceConfig}
use compute_sentry.Objects.{EnvVar}

-- The loop over the policies. `matches` is LabelSelectorAsSelector, `none` where it fails, with
-- Matches of the selector.
unfoldable pub match_policy :
    {Selector : Type 0}
    → (Selector → Map String String → Option Bool)
    → Map String String
    → List (ComputeSentryPolicy Selector)
    → Option (ComputeSentryPolicy Selector)
match_policy matches labels [] = none
match_policy matches labels (policy ∷ policies) =
    let rest = match_policy matches labels policies in
    maybe (matches policy.spec.selector labels) rest
      (λ matched. if matched then some policy else rest)

-- The annotation, then the policy's flag, then off.
unfoldable pub should_inject :
    {Selector : Type 0} → Option String → Option (ComputeSentryPolicy Selector) → Bool
should_inject (some inject_value) matched_policy = inject_value == "true"
should_inject none (some policy) = policy.spec.spy_config.enabled
should_inject none none = false

unfoldable pub gov_config : {Selector : Type 0} → ComputeSentryPolicy Selector → GovernanceConfig
gov_config policy = record {
  thresholds = policy.spec.thresholds;
  eval_config = policy.spec.eval_config;
}

-- The configuration of the matched policy, if there is one.
unfoldable pub governance_of :
    {Selector : Type 0} → Option (ComputeSentryPolicy Selector) → Option GovernanceConfig
unfolding gov_config
governance_of none = none
governance_of (some policy) = some (gov_config policy)

-- A variable of the policy, left out where its number is 0.
unfoldable pub unless_zero : String → ℤ → List EnvVar
unless_zero name n =
    if not (int_beq n (pos 0))
    then record { name = name; value = decimal n; value_from = none } ∷ []
    else []

unfoldable pub precheck_envs : Option GovernanceConfig → List EnvVar
precheck_envs none = []
precheck_envs (some config) =
    unless_zero "PRECHECK_MIN_P2P_GBPS" config.thresholds.min_p2p_bandwidth_gbps
    ++ unless_zero "PRECHECK_MIN_HBM_GBPS" config.thresholds.min_hbm_bandwidth_gbps
