-- ===== src/Operator.antt =====
-- operator/cmd/main.go: the options of the two servers, and the steps of the start with their exits.
pub mod Startup
use compute_sentry.Prelude.{
  Bool, true, false, not, Option, none, some, String, List, [], ◌∷◌, ◌++◌, ◌==◌, string_eq,
  if◌then◌else◌,
}

pub record Options : Type 0 where
  pub metrics_addr : String
  pub metrics_cert_path : String
  pub metrics_cert_name : String
  pub metrics_cert_key : String
  pub webhook_cert_path : String
  pub webhook_cert_name : String
  pub webhook_cert_key : String
  pub enable_leader_election : Bool
  pub probe_addr : String
  pub secure_metrics : Bool
  pub enable_http2 : Bool

abbrev pub default_options : Options
default_options = record {
  metrics_addr = "0";
  metrics_cert_path = "";
  metrics_cert_name = "tls.crt";
  metrics_cert_key = "tls.key";
  webhook_cert_path = "";
  webhook_cert_name = "tls.crt";
  webhook_cert_key = "tls.key";
  enable_leader_election = false;
  probe_addr = ":8081";
  secure_metrics = true;
  enable_http2 = false;
}

-- A func(*tls.Config), by what it does to NextProtos.
abbrev pub TlsOpt : Type 0
TlsOpt = List String → List String

unfoldable pub disable_http2 : TlsOpt
disable_http2 next_protos = "http/1.1" ∷ []

unfoldable pub tls_opts_of : Options → List TlsOpt
tls_opts_of options = if not options.enable_http2 then disable_http2 ∷ [] else []

-- What a server does with its options: it applies them in order.
unfoldable pub configured : List TlsOpt → List String → List String
configured [] next_protos = next_protos
configured (opt ∷ opts) next_protos = configured opts (opt next_protos)

pub record Certificate : Type 0 where
  pub cert_dir : String
  pub cert_name : String
  pub key_name : String

-- The certificate, where a path is given.
unfoldable pub certificate_at : String → String → String → Option Certificate
certificate_at path name key =
    if path == "" then none else some (record { cert_dir = path; cert_name = name; key_name = key })

pub record WebhookOptions : Type 0 where
  pub tls_opts : List TlsOpt
  pub certificate : Option Certificate

unfoldable pub webhook_options : Options → WebhookOptions
webhook_options options = record {
  tls_opts = tls_opts_of options;
  certificate =
      certificate_at options.webhook_cert_path options.webhook_cert_name options.webhook_cert_key;
}

-- `authorized` is whether FilterProvider is WithAuthenticationAndAuthorization.
pub record MetricsOptions : Type 0 where
  pub bind_address : String
  pub secure_serving : Bool
  pub tls_opts : List TlsOpt
  pub authorized : Bool
  pub certificate : Option Certificate

unfoldable pub metrics_options : Options → MetricsOptions
metrics_options options = record {
  bind_address = options.metrics_addr;
  secure_serving = options.secure_metrics;
  tls_opts = tls_opts_of options;
  authorized = if options.secure_metrics then true else false;
  certificate =
      certificate_at options.metrics_cert_path options.metrics_cert_name options.metrics_cert_key;
}

-- The calls of `main` that can fail (GetConfigOrDie, which exits by itself, is the first), and the registration of the pod webhook, which cannot.
pub data Step : Type 0 where
  get_config new_manager index_node_name policy_controller new_clientset health_controller : Step
  policy_webhook pod_mutator : Step
  healthz_check readyz_check start_manager : Step

-- The steps in their order; `enable_webhooks` is os.Getenv("ENABLE_WEBHOOKS").
unfoldable pub steps_of : (enable_webhooks : String) → List Step
steps_of enable_webhooks =
    get_config
    ∷ new_manager
    ∷ index_node_name
    ∷ policy_controller
    ∷ new_clientset
    ∷ health_controller
    ∷ ((if not (enable_webhooks == "false") then policy_webhook ∷ pod_mutator ∷ [] else [])
        ++ healthz_check ∷ readyz_check ∷ start_manager ∷ [])

-- Steps until one fails, which exits with code 1: the steps that succeeded, and the one that failed.
unfoldable pub perform : (Step → Bool) → List Step → List Step × Option Step
perform succeeds [] = ([], none)
perform succeeds (step ∷ steps) =
    let rest = perform succeeds steps in
    if succeeds step then (step ∷ rest.0, rest.1) else ([], some step)

-- `main`, by which of its calls succeed.
unfoldable pub run_main : (Step → Bool) → String → List Step × Option Step
run_main succeeds enable_webhooks = perform succeeds (steps_of enable_webhooks)
