-- ===== src/Exporter.antt =====
-- agent/exporter/prometheus.go: what the exporter counts of an event.
pub mod Labels
pub mod Utf8
use compute_sentry.Prelude.{
  ℕ, Bool, true, false, Option, none, some, List, [], ◌∷◌, ◌==◌, nat_beq, ◌&&◌, if◌then◌else◌,
}
use compute_sentry.Prelude.Int.{ℤ, int_beq}
use compute_sentry.Prelude.Text.{Text, codes, text_eq}
use compute_sentry.Collector.{MetricEvent, nccl_all_reduce, cuda_malloc, cuda_memcpy}

pub record Exporter : Type 0 where
  pub addr : Text
  pub node_name : Text
  pub switch_id : Text
  pub rack_id : Text
  pub node_gpu_model : Text

unfoldable pub new_exporter : Text → Text → Text → Text → Text → Exporter
new_exporter addr node sw rack node_gpu_model = record {
  addr = addr;
  node_name = node;
  switch_id = sw;
  rack_id = rack;
  node_gpu_model = node_gpu_model;
}

-- The switch on event.Type.
unfoldable pub type_name : ℤ → Text
type_name type =
    if int_beq type nccl_all_reduce
    then codes "ncclAllReduce"
    else if int_beq type cuda_malloc
    then codes "cudaMalloc"
    else if int_beq type cuda_memcpy
    then codes "cudaMemcpy"
    else codes "unknown"

-- bytes.TrimRight(b, "\x00")
unfoldable pub trim_right_nul : List ℕ → Text
trim_right_nul [] = []
trim_right_nul (b ∷ bs) =
    let rest = trim_right_nul bs in if nat_beq b 0 && rest == [] then [] else b ∷ rest

unfoldable pub unless_empty : Text → Text
unless_empty model = if model == [] then codes "unknown" else model

-- "type", "node", "switch", "rack", "node_gpu_model", "runtime_gpu_model"
unfoldable pub labels_of : Exporter → MetricEvent → List Text
labels_of e event =
    type_name event.type
    ∷ e.node_name
    ∷ e.switch_id
    ∷ e.rack_id
    ∷ unless_empty e.node_gpu_model
    ∷ unless_empty (trim_right_nul event.gpu_model)
    ∷ []

-- The calls on the two metrics; their numbers are made float64.
pub data Call : Type 0 where
  observe_latency : List Text → ℤ → Call
  add_ops : List Text → ℕ → Call

-- `Record`. `accepts` is whether WithLabelValues takes the values; it panics else, which is `none`.
unfoldable pub record_event : (List Text → Bool) → Exporter → MetricEvent → Option (List Call)
record_event accepts e event =
    let labels = labels_of e event in
    if accepts labels
    then some (observe_latency labels event.duration_us ∷ add_ops labels event.count ∷ [])
    else none
