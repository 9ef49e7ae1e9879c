-- ===== src/Agent.antt =====
-- agent/main.go: the node's topology, the start of the parts, and the main loop that hands each
-- event to the exporter and the evaluator.
mod Files
unfoldable pub use Files.*
pub mod Forward
pub mod Panic
pub mod Distribution
pub mod Installation
use compute_sentry.Prelude.{
  ℕ, Bool, true, false, Option, none, some, String, List, [], ◌∷◌, ◌++◌, ◌==◌, maybe, not,
  string_eq, if◌then◌else◌,
}
use compute_sentry.Prelude.Int.{ℤ, pos}
use compute_sentry.Prelude.Text.{Text, codes, text_eq}
use compute_sentry.Prelude.Map
use compute_sentry.Api.Codec.{Codec}
use compute_sentry.Objects.{Pod, Node}
use compute_sentry.Collector.{MetricEvent}
use compute_sentry.Evaluator.{
  HealthEvaluator, StartError, new_health_evaluator, start, offer, unknown,
}
use compute_sentry.Exporter.{Exporter, Call, new_exporter, record_event}

-- The flags, and their defaults.
pub record Flags : Type 0 where
  pub uds_path : Text
  pub metrics_addr : Text
  pub lib_src : Text
  pub lib_dest : Text
  pub script_src : Text
  pub script_dest : Text
  pub window_size : ℤ
  pub error_count_limit : ℤ
  pub threshold_us : ℤ

abbrev pub default_flags : Flags
default_flags = record {
  uds_path = codes "/var/run/compute-sentry/spy.sock";
  metrics_addr = codes ":9091";
  lib_src = codes "/app/lib/libcompute-sentry-spy.so";
  lib_dest = codes "/opt/compute-sentry/lib/libcompute-sentry-spy.so";
  script_src = codes "/app/bin/precheck.sh";
  script_dest = codes "/opt/compute-sentry/bin/precheck.sh";
  window_size = pos 10;
  error_count_limit = pos 5;
  threshold_us = pos 500;
}

-- os.Getenv("NODE_NAME"), "" where it is not set.
unfoldable pub node_name_of : Text → Text
node_name_of env = if env == [] then unknown else env

pub record Topology : Type 0 where
  pub sw : Text
  pub rack : Text
  pub gpu : Text

abbrev pub no_topology : Topology
no_topology = record { sw = unknown; rack = unknown; gpu = unknown }

-- A label of the node. Label values are ASCII.
unfoldable pub label_or : Text → String → Node → Text
unfolding Map.lookup
label_or default key node = maybe (Map.lookup key node.labels) default codes

-- `getTopology`: whether the in-cluster configuration and the clientset were obtained, and the
-- response of the Get call, `none` an error.
unfoldable pub get_topology : Text → Bool → Bool → Option Node → Topology
unfolding label_or
get_topology node_name in_cluster clientset response =
    if node_name == unknown
    then no_topology
    else if not in_cluster
    then no_topology
    else if not clientset
    then no_topology
    else maybe response no_topology (λ node. record {
      sw = label_or unknown "topology.aiguard.io/switch" node;
      rack = label_or unknown "topology.aiguard.io/rack" node;
      gpu = label_or unknown "topology.aiguard.io/gpu-model" node;
    })

-- What the main loop works on: the exporter's calls so far, and the evaluator.
pub record Agent : Type 0 where
  pub exporter : Exporter
  pub calls : List Call
  pub evaluator : HealthEvaluator

-- Steps 1, 5 and 6 of `main`. The agent goes on without the evaluator's goroutines where `Start`
-- fails. `pods` is the response of the evaluator's List call.
unfoldable pub start_agent :
    Codec → Flags → Text → Bool → Bool → Option Node → Option (List Pod) → Agent × Option StartError
start_agent codec flags env in_cluster clientset node pods =
    let node_name = node_name_of env in
    let topology = get_topology node_name in_cluster clientset node in
    let started =
      start codec node_name in_cluster clientset pods
        (new_health_evaluator flags.window_size flags.error_count_limit flags.threshold_us) in
    (
      record {
        exporter = new_exporter flags.metrics_addr node_name topology.sw topology.rack topology.gpu;
        calls = [];
        evaluator = started.0;
      },
      started.1,
    )

-- One round of the main loop; `none` is the panic of WithLabelValues.
unfoldable pub forward_event : (List Text → Bool) → MetricEvent → Agent → Option Agent
forward_event accepts event agent = maybe (record_event accepts agent.exporter event) none (λ calls.
    some (record agent { calls = agent.calls ++ calls; evaluator = offer event agent.evaluator }))

-- The main loop, over the events that it takes from the collector's channel.
unfoldable pub forward : (List Text → Bool) → List MetricEvent → Agent → Option Agent
forward accepts [] agent = some agent
forward accepts (event ∷ events) agent =
    maybe (forward_event accepts event agent) none (forward accepts events)

-- What ends `main` before its loop.
pub data Fatal : Type 0 where
  library_failed script_failed : CopyError → Fatal
  collector_failed : Fatal

-- The start of the collector on the socket `uds_path`.
unfoldable pub start_collector : Bool → FileSystem → FileSystem × Option Fatal
start_collector collector_ok fs = if collector_ok then (fs, none) else (fs, some collector_failed)

-- Step 3, with what comes after it.
unfoldable pub install_script :
    Flags → ℕ → Calls → Text → Bool → FileSystem → FileSystem × Option Fatal
install_script flags umask_mode calls dir collector_ok fs =
    let copied = distribute_file umask_mode calls dir flags.script_src flags.script_dest fs in
    maybe copied.1 (start_collector collector_ok copied.0) (λ e. (copied.0, some (script_failed e)))

-- Steps 2 to 4 of `main`: the library, the script, and whether the collector's `Start` succeeds.
-- `dirs` are the directories of the two destinations, and the two `Calls` say which system calls
-- succeed.
unfoldable pub install :
    Flags → ℕ → Calls → Calls → Text × Text → Bool → FileSystem → FileSystem × Option Fatal
install flags umask_mode lib_calls script_calls dirs collector_ok fs =
    let copied = distribute_file umask_mode lib_calls dirs.0 flags.lib_src flags.lib_dest fs in
    maybe copied.1 (install_script flags umask_mode script_calls dirs.1 collector_ok copied.0)
      (λ e. (copied.0, some (library_failed e)))
