-- ===== src/Mutator/Containers.antt =====
-- What the injection adds to a container.
use compute_sentry.Prelude.{
  Bool, true, false, none, some, String, List, [], ◌∷◌, ◌++◌, exists, ◌==◌, string_eq,
  if◌then◌else◌,
}
use Prim.Native.String.{◌++◌ as ◌+++◌}
use compute_sentry.Objects.{EnvVar, VolumeMount, Container}

abbrev pub ld_preload : String
ld_preload = "LD_PRELOAD"

abbrev pub spy_library : String
spy_library = "/opt/compute-sentry/lib/libcompute-sentry-spy.so"

abbrev pub literal : String → String → EnvVar
literal name value = record { name = name; value = value; value_from = none }

abbrev pub field_of_pod : String → String → EnvVar
field_of_pod name path = record { name = name; value = ""; value_from = some path }

abbrev pub is_named : String → EnvVar → Bool
is_named name env = env.name == name

-- The loop over container.Env, with its break at the first LD_PRELOAD.
unfoldable pub preload_first : List EnvVar → List EnvVar
preload_first [] = []
preload_first (env ∷ envs) =
    let rest = preload_first envs in
    if is_named ld_preload env
    then record env { value = "/opt/compute-sentry/lib/libcompute-sentry-spy.so:" +++ env.value }
      ∷ envs
    else env ∷ rest

-- The loop and the append where it has found none.
unfoldable pub inject_preload : List EnvVar → List EnvVar
inject_preload envs =
    if exists (is_named ld_preload) envs
    then preload_first envs
    else envs ++ literal ld_preload spy_library ∷ []

abbrev pub spy_envs : List EnvVar
spy_envs =
    literal "COMPUTE_SENTRY_UDS_PATH" "/var/run/compute-sentry/spy.sock"
    ∷ field_of_pod "COMPUTE_SENTRY_POD_NAME" "metadata.name"
    ∷ field_of_pod "COMPUTE_SENTRY_POD_NAMESPACE" "metadata.namespace"
    ∷ []

abbrev pub spy_mounts : List VolumeMount
spy_mounts =
    record {
      name = "compute-sentry-uds";
      mount_path = "/var/run/compute-sentry";
      read_only = false;
    }
    ∷ record {
      name = "compute-sentry-lib";
      mount_path = "/opt/compute-sentry/lib";
      read_only = true;
    }
    ∷ []

-- The body of the loop over pod.Spec.Containers.
unfoldable pub inject_container : Container → Container
inject_container container = record container {
  env = inject_preload container.env ++ spy_envs;
  volume_mounts = container.volume_mounts ++ spy_mounts;
}
