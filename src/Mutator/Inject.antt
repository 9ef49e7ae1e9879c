-- ===== src/Mutator/Inject.antt =====
-- `Handle`: the injection into a pod, and the answer to an admission request.
use compute_sentry.Prelude.{
  Bool, true, Option, none, some, String, List, [], ◌∷◌, ◌++◌, map, maybe, not, string_eq,
  if◌then◌else◌,
}
use compute_sentry.Prelude.Map
use compute_sentry.Prelude.Map.{Map}
use compute_sentry.Api.{ComputeSentryPolicy, GovernanceConfig}
use compute_sentry.Objects.{EnvVar, Container, Volume, Pod, annotation}
use compute_sentry.Mutator.Policy.{match_policy, should_inject, governance_of, precheck_envs}
use compute_sentry.Mutator.Containers.{inject_container}

abbrev pub inject_annotation : String
inject_annotation = "compute-sentry.aiguard.io/inject"

abbrev pub injected_annotation : String
injected_annotation = "compute-sentry.aiguard.io/injected"

abbrev pub governance_config_annotation : String
governance_config_annotation = "compute-sentry.aiguard.io/governance-config"

abbrev pub uds_volume : Volume
uds_volume = record { name = "compute-sentry-uds"; host_path = "/var/run/compute-sentry" }

abbrev pub lib_volume : Volume
lib_volume = record { name = "compute-sentry-lib"; host_path = "/opt/compute-sentry/lib" }

abbrev pub bin_volume : Volume
bin_volume = record { name = "compute-sentry-bin"; host_path = "/opt/compute-sentry/bin" }

-- The init container with the precheck.
unfoldable pub precheck : List EnvVar → Container
precheck envs = record {
  name = "compute-sentry-precheck";
  image = "m.daocloud.io/docker.io/nvidia/cuda:12.0.0-base-ubuntu22.04";
  command = "sh" ∷ "-c" ∷ "/opt/compute-sentry/bin/precheck.sh" ∷ [];
  env = envs;
  limits = ("nvidia.com/gpu", "1") ∷ [];
  volume_mounts =
      record {
        name = "compute-sentry-bin";
        mount_path = "/opt/compute-sentry/bin";
        read_only = true;
      }
      ∷ [];
}

-- The containers, the init container and the volumes.
unfoldable pub inject_spec : Option GovernanceConfig → Pod → Pod
inject_spec config pod = record pod {
  spec = record pod.spec {
    containers = map inject_container pod.spec.containers;
    init_containers = pod.spec.init_containers ++ precheck (precheck_envs config) ∷ [];
    volumes = ((pod.spec.volumes ++ uds_volume ∷ []) ++ lib_volume ∷ []) ++ bin_volume ∷ [];
  };
}

-- A write to the annotations, which are made where they are nil.
unfoldable pub annotate : String → String → Pod → Pod
annotate key value pod = record pod {
  annotations = some (Map.insert key value (maybe pod.annotations [] (λ m. m)));
}

-- The configuration is left out where it cannot be marshalled.
unfoldable pub annotate_config :
    (GovernanceConfig → Option String) → Option GovernanceConfig → Pod → Pod
annotate_config marshal none pod = pod
annotate_config marshal (some config) pod =
    maybe (marshal config) pod (λ text. annotate governance_config_annotation text pod)

unfoldable pub inject : (GovernanceConfig → Option String) → Option GovernanceConfig → Pod → Pod
inject marshal config pod =
    annotate_config marshal config (annotate injected_annotation "true" (inject_spec config pod))

-- An admission response: an error with its HTTP status, the pod as it is, or the patch from the
-- request's raw object to the marshalled pod.
pub data Response : Type 0 where
  errored : (code : Prim.Native.Nat.ℕ) → Response
  allowed : Response
  patch_from_raw : (raw marshaled : String) → Response

-- `marshal` and `marshal_pod` are json.Marshal at the two types.
module _ {Selector : Type 0} (matches : Selector → Map String String → Option Bool)
    (marshal : GovernanceConfig → Option String) (marshal_pod : Pod → Option String) where
  unfoldable pub answer : String → Pod → Response
  answer raw pod = maybe (marshal_pod pod) (errored 500) (patch_from_raw raw)

  -- Everything behind the two calls that may fail.
  unfoldable pub mutate : String → Pod → List (ComputeSentryPolicy Selector) → Response
  mutate raw pod policies =
      let matched_policy = match_policy matches pod.labels policies in
      if not (should_inject (annotation inject_annotation pod) matched_policy)
      then allowed
      else answer raw (inject marshal (governance_of matched_policy) pod)

  -- `Handle` of a request with the object `raw`: what Decode and List give, `none` an error.
  unfoldable pub handle :
      String → Option Pod → Option (List (ComputeSentryPolicy Selector)) → Response
  handle raw none policies = errored 400
  handle raw (some pod) none = errored 500
  handle raw (some pod) (some policies) = mutate raw pod policies
