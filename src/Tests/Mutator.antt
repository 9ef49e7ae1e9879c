-- ===== src/Tests/Mutator.antt =====
-- The pod webhook on a pod with one container.
use compute_sentry.Prelude.{
  ◌≤◌, Bool, true, false, Option, none, some, String, List, [], ◌∷◌, ◌≡◌, refl, arith, exists,
  tally, string_eq,
}
use compute_sentry.Prelude.Int.{pos}
use compute_sentry.Prelude.Decimal.{decimal, digits}
use compute_sentry.Prelude.Text.{codes, join_slash, text_eq}
use compute_sentry.Prelude.Map
use compute_sentry.Api.{ComputeSentryPolicy}
use compute_sentry.Api.Codec.{IsRepresentable}
use compute_sentry.Objects.{Container, Pod, annotation}
use compute_sentry.Evaluator.{HealthEvaluator, new_health_evaluator, seconds, limits_of, look_up}
use compute_sentry.Mutator.{
  literal, is_named, ld_preload, unless_zero, precheck_envs, match_policy, should_inject,
  gov_config, governance_of, inject, inject_annotation, answer, handle,
}
use compute_sentry.Mutator.Admission.{IsAnswer, handle-IsAnswer}
use compute_sentry.Mutator.Volumes.{IsClosed, HasNamesOnce, inject-IsClosed}
use compute_sentry.Mutator.Reinvocation.{handle-injected}
use compute_sentry.Mutator.Governance.{limits-injected}
use compute_sentry.Tests.Codec.{sample_config, sample_codec}

abbrev pub trainer : Container
trainer = record {
  name = "trainer";
  image = "pytorch";
  command = [];
  env = literal "LD_PRELOAD" "/lib/own.so" ∷ literal "HOME" "/root" ∷ [];
  limits = [];
  volume_mounts = record { name = "data"; mount_path = "/data"; read_only = false } ∷ [];
}

abbrev pub job : Pod
job = record {
  name = codes "job";
  namespace = codes "training";
  labels = ("app", "gpu") ∷ [];
  annotations = none;
  spec = record {
    node_name = codes "node-a";
    containers = trainer ∷ [];
    init_containers = [];
    volumes = record { name = "data"; host_path = "/data" } ∷ [];
  };
}

-- The selector is its own answer: `none` where it is invalid.
abbrev pub answers : Option Bool → Map.Map String String → Option Bool
answers selector labels = selector

abbrev pub policy_of : Option Bool → ComputeSentryPolicy (Option Bool)
policy_of selector = record {
  name = "policy";
  spec = record {
    selector = selector;
    spy_config = record { enabled = true };
    thresholds = sample_config.thresholds;
    eval_config = sample_config.eval_config;
    actions = record { enable_taint = true; enable_evict = false; node_taint_threshold = none };
  };
}

abbrev policies : List (ComputeSentryPolicy (Option Bool))
policies = policy_of none ∷ policy_of (some false) ∷ policy_of (some true) ∷ []

abbrev pod_json : Pod → Option String
pod_json pod = some "{}"

own_preload_once : tally (is_named ld_preload) trainer.env ≤ 1
unfolding tally
own_preload_once = omega arith

handle-IsAnswer_example :
    IsAnswer answers sample_codec.marshal pod_json "{}" job policies
      (handle answers sample_codec.marshal pod_json "{}" (some job) (some policies))
handle-IsAnswer_example =
    handle-IsAnswer answers sample_codec.marshal pod_json "{}" job policies (own_preload_once, tt)

job-IsClosed : IsClosed job
unfolding exists
job-IsClosed = (((refl, tt), tt), tt)

inject-IsClosed_example : IsClosed (inject sample_codec.marshal (some sample_config) job)
inject-IsClosed_example = inject-IsClosed sample_codec.marshal (some sample_config) job job-IsClosed

job_injected :
    should_inject (annotation inject_annotation job) (match_policy answers job.labels policies)
    ≡ true
unfolding should_inject annotation match_policy
job_injected = refl

handle-injected_example :
    (handle answers sample_codec.marshal pod_json "{}"
        (some (
          inject sample_codec.marshal
            (governance_of (match_policy answers job.labels policies))
            job))
        (some policies)
      ≡ answer answers sample_codec.marshal pod_json "{}" (
          inject sample_codec.marshal (governance_of (match_policy answers job.labels policies)) (
            inject sample_codec.marshal
              (governance_of (match_policy answers job.labels policies))
              job)))
    × ¬ HasNamesOnce
        (inject sample_codec.marshal (governance_of (match_policy answers job.labels policies)) (
          inject sample_codec.marshal
            (governance_of (match_policy answers job.labels policies))
            job)).spec.volumes
handle-injected_example =
    handle-injected answers sample_codec.marshal pod_json "{}" job policies job_injected

sample_fits : IsRepresentable sample_config
sample_fits = record {
  latency = omega arith;
  jitter = omega arith;
  p2p = omega arith;
  hbm = omega arith;
  window = omega arith;
  limit = omega arith;
}

abbrev watching : HealthEvaluator
watching = record (new_health_evaluator (pos 60) (pos 5) (pos 900)) { has_client = true }

nothing_cached : Map.lookup (join_slash job.namespace job.name) watching.pod_configs ≡ none
unfolding new_health_evaluator Map.lookup
nothing_cached = refl

limits-injected_example :
    limits_of
      (look_up sample_codec watching job.namespace job.name
        (some (
          inject sample_codec.marshal
            (governance_of (match_policy answers job.labels policies))
            job))
        (pos 1_000)).0
      (look_up sample_codec watching job.namespace job.name
        (some (
          inject sample_codec.marshal
            (governance_of (match_policy answers job.labels policies))
            job))
        (pos 1_000)).1
    ≡ record { threshold = pos 500; window = seconds (pos 10); limit = pos 1 }
limits-injected_example =
    limits-injected answers policies (policy_of (some true)) job watching job.namespace job.name
      (pos 1_000) (unfold match_policy in refl) (unfold gov_config in sample_fits) nothing_cached
      refl

-- The precheck's variables of a policy that sets one of the two numbers.
precheck_variables : precheck_envs (some sample_config) ≡ literal "PRECHECK_MIN_P2P_GBPS" "20" ∷ []
unfolding precheck_envs unless_zero decimal digits
precheck_variables = refl
