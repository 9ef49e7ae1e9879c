-- ===== src/Evaluator/Violations.antt =====
-- Which of the evaluator's operations leave the violations on record alone.
use compute_sentry.Prelude.{Option, none, some, List, [], ◌∷◌, ◌≡◌, refl, arith, maybe, ◌∙◌}
use compute_sentry.Prelude.Int.{ℤ}
use compute_sentry.Prelude.Text.{Text, text_eq, split_slash}
use compute_sentry.Prelude.Map.{Map}
use compute_sentry.Api.Codec.{Codec}
use compute_sentry.Objects.{Pod}
use compute_sentry.Evaluator.{
  HealthEvaluator, cache, cache_all, annotated_config, sync_node_pods, sweep_violations, forget,
  forget_stale, sweep_stale, recover_parts, recover_pods, cleaned, check_recovery_and_cleanup,
}

-- The later loops of the sweep leave the violations alone.
violation_times-sweep_stale :
    (now : ℤ) (entries : Map Text ℤ) (e : HealthEvaluator)
    → (sweep_stale now entries e).violation_times ≡ e.violation_times
unfolding sweep_stale forget_stale forget
violation_times-sweep_stale now [] e = refl
violation_times-sweep_stale now ((key, last_seen) ∷ entries) e =
    ground (arith, violation_times-sweep_stale now entries (forget_stale now key last_seen e))

violation_times-recover_parts :
    (e : HealthEvaluator) (key : Text) (parts : List Text)
    → (recover_parts e key parts).0.violation_times ≡ e.violation_times
unfolding recover_parts
violation_times-recover_parts e key (namespace ∷ name ∷ []) = refl
violation_times-recover_parts e key _ = refl

violation_times-recover_pods :
    (keys : List Text) (e : HealthEvaluator)
    → (recover_pods e keys).0.violation_times ≡ e.violation_times
unfolding recover_pods
violation_times-recover_pods [] e = refl
violation_times-recover_pods (key ∷ keys) e =
    violation_times-recover_pods keys (recover_parts e key (split_slash key)).0
    ∙ violation_times-recover_parts e key (split_slash key)

pub violation_times-sweep :
    (e : HealthEvaluator) (now : ℤ)
    → (check_recovery_and_cleanup e now).0.violation_times
      ≡ (sweep_violations e now e.violation_times).0
unfolding check_recovery_and_cleanup cleaned
violation_times-sweep e now =
    violation_times-recover_pods (sweep_violations e now e.violation_times).1 (cleaned e now)
    ∙ violation_times-sweep_stale now e.last_seen_times _

violation_times-cache_all :
    (codec : Codec) (pods : List Pod) (e : HealthEvaluator)
    → (cache_all codec pods e).violation_times ≡ e.violation_times
unfolding cache_all cache
violation_times-cache_all codec [] e = refl
violation_times-cache_all codec (pod ∷ pods) e = ground (
  arith,
  violation_times-cache_all codec pods
      (maybe (annotated_config codec pod) e (λ config. cache e pod.namespace pod.name config)),
)

pub violation_times-sync :
    (codec : Codec) (e : HealthEvaluator) (response : Option (List Pod))
    → (sync_node_pods codec e response).violation_times ≡ e.violation_times
unfolding sync_node_pods
violation_times-sync codec e none = refl
violation_times-sync codec e (some pods) = ground (arith, violation_times-cache_all codec pods e)
