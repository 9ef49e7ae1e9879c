-- ===== src/System/Alarm.antt =====
-- A violation on its way from the agent to the operator: the patch of the pod on the API server, and the
-- decision on the pod's node.
use compute_sentry.Prelude.{
  Bool, true, false, Option, none, some, String, List, [], ◌∷◌, ◌++◌, map, ◌≡◌, refl, ap, ◌∙◌,
  arith, exists, tally, ◌==◌, string_eq,
}
use compute_sentry.Prelude.Int.{ℤ, pos, ltb_ℤ}
use compute_sentry.Prelude.Text.{until_nul, text_eq}
use compute_sentry.Prelude.Map
use compute_sentry.Prelude.Map.{lookup-insert}
use compute_sentry.Api.{GovernanceConfig}
use compute_sentry.Api.Codec.{Codec}
use compute_sentry.Objects.{Pod}
use compute_sentry.Collector.{MetricEvent}
use compute_sentry.Evaluator.{
  HealthEvaluator, PatchCall, seconds, flag_of, is_within, is_unnamed, mark_pod_status,
  process_event,
}
use compute_sentry.Evaluator.Clients.{has_client-process_event}
use compute_sentry.Evaluator.Marking.{
  key_of, after, is_evaluated, violations_with, flag-process_event, patches-process_event,
}
use compute_sentry.Health.{is_unhealthy, count_pods, no_pods, decide}
use compute_sentry.System.Served.{patched, served, is_unhealthy-patched}
use compute_sentry.Health.Decision.{wants_taint-default}

exists_among {ℓ} :
    {A : Type ℓ} (p : A → Bool) (before : List A) (x : A) (later : List A)
    → p x ≡ true
    → exists p (before ++ x ∷ later) ≡ true
unfolding exists
exists_among p [] x later h = rw h refl
exists_among p (y ∷ before) x later h = ground (arith, exists_among p before x later h)

map-append_cons {ℓ κ} :
    {A : Type ℓ} {B : Type κ} (f : A → B) (before : List A) (x : A) (later : List A)
    → map f (before ++ x ∷ later) ≡ map f before ++ f x ∷ map f later
map-append_cons f [] x later = refl
map-append_cons f (y ∷ before) x later = rw (map-append_cons f before x later) refl

-- A node with a pod that has got the "unhealthy" patch is to be tainted.
taint_of_patch :
    (call : PatchCall) (before : List Pod) (pod : Pod) (behind : List Pod)
    → pod.name ≡ call.name
    → pod.namespace ≡ call.namespace
    → call.status ≡ "unhealthy"
    → (decide none false
        (count_pods (served (call ∷ []) (before ++ pod ∷ behind)) no_pods)).should_taint
      ≡ true
unfolding served decide
taint_of_patch call before pod behind named placed bad =
    let marked : is_unhealthy (patched call pod) ≡ true =
      is_unhealthy-patched call pod named placed ∙ ap (λ (s : String). s == "unhealthy") bad in
    let found : exists is_unhealthy (map (patched call) (before ++ pod ∷ behind)) ≡ true =
      rw (map-append_cons (patched call) before pod behind) (
        exists_among is_unhealthy (map (patched call) before) (patched call pod)
          (map (patched call) behind) marked) in
    ground (arith, wants_taint-default (map (patched call) (before ++ pod ∷ behind)), found)

-- A slow all-reduce taints the node: where an event of a pod with a cached configuration is slower than
-- the configured latency and one violation more than the configured limit lies within the window, and
-- the pod was not flagged, and the API server patches the pod as it is told, the operator's decision on
-- the pod's node, which is not tainted yet and whose policy names no threshold, is to taint it.
pub alarm-taints :
    (codec : Codec) (e : HealthEvaluator) (event : MetricEvent) (response : Option Pod)
    (now later : ℤ) (config : GovernanceConfig) (before : List Pod) (pod : Pod) (behind : List Pod)
    → Map.lookup (key_of event) e.pod_configs ≡ some config
    → flag_of (key_of event) e.unhealthy_pods ≡ false
    → e.has_client ≡ true
    → is_evaluated event ≡ true
    → ltb_ℤ config.thresholds.max_nccl_latency_us event.duration_us ≡ true
    → ltb_ℤ config.eval_config.error_count_limit (
        pos (
          tally
            (is_within later (seconds config.eval_config.window_size))
            (violations_with e event now)))
      ≡ true
    → pod.name ≡ until_nul event.pod_name
    → pod.namespace ≡ until_nul event.pod_namespace
    → (decide none false (
        count_pods
          (served (process_event codec e event response now later).1 (before ++ pod ∷ behind))
          no_pods)).should_taint
      ≡ true
unfolding mark_pod_status
alarm-taints codec e event response now later config before pod behind cached unflagged client
      evaluated slow often named placed =
    let flagged : flag_of (key_of event) (after codec e event response now later).unhealthy_pods
        ≡ true =
      flag-process_event codec e event response now later config cached ∙ ground arith in
    let named_pod : is_unnamed (until_nul event.pod_name) ≡ false = ground arith in
    rw
      (
        patches-process_event codec e event response now later,
        unflagged,
        flagged,
        has_client-process_event codec e event response now later,
        client,
        named_pod,
      )
      (taint_of_patch
        (record {
          name = until_nul event.pod_name;
          namespace = until_nul event.pod_namespace;
          status = "unhealthy";
        })
        before pod behind named placed refl)
