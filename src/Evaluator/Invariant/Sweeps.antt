-- ===== src/Evaluator/Invariant/Sweeps.antt =====
-- The periodic sweep keeps the invariant.
use compute_sentry.Prelude.{true, List, [], ◌∷◌, ◌≡◌, ◌≢◌, arith, All, if_ind}
use compute_sentry.Prelude.Int.{ℤ}
use compute_sentry.Prelude.Text.{Text, text_eq, split_slash}
use compute_sentry.Prelude.Map
use compute_sentry.Prelude.Map.{Map, HasKeysOnce, erase-HasKeysOnce, erase-All}
use compute_sentry.Evaluator.{
  HealthEvaluator, sweep_violations, forget, forget_stale, sweep_stale, recover_parts, recover_pods,
  cleaned, check_recovery_and_cleanup,
}
use compute_sentry.Evaluator.Entries.{lookup-kept}
use compute_sentry.Evaluator.Invariant.{IsWellFormed}

kept-HasKeysOnce :
    (e : HealthEvaluator) (now : ℤ) (m : Map Text (List ℤ))
    → HasKeysOnce m
    → HasKeysOnce (sweep_violations e now m).0
unfolding sweep_violations
kept-HasKeysOnce e now [] h = h
kept-HasKeysOnce e now ((key, times) ∷ m) h =
    ground (arith, kept-HasKeysOnce e now m h.1, lookup-kept e now key m h.1)

kept-recorded :
    (e : HealthEvaluator) (now : ℤ) (m : Map Text (List ℤ))
    → All (λ entry. entry.1 ≢ []) (sweep_violations e now m).0
unfolding sweep_violations
kept-recorded e now [] = tt
kept-recorded e now ((key, times) ∷ m) = ground (arith, kept-recorded e now m)

forget-IsWellFormed :
    (key : Text) (e : HealthEvaluator) → IsWellFormed e → IsWellFormed (forget key e)
unfolding forget
forget-IsWellFormed key e w = record {
  violations = w.violations;
  recorded = w.recorded;
  last_seen = erase-HasKeysOnce key e.last_seen_times w.last_seen;
  unhealthy = erase-HasKeysOnce key e.unhealthy_pods w.unhealthy;
  flagged = erase-All (λ entry. entry.1 ≡ true) key e.unhealthy_pods w.flagged;
  configs = erase-HasKeysOnce key e.pod_configs w.configs;
  buffered = w.buffered;
}

forget_stale-IsWellFormed :
    (now : ℤ) (key : Text) (last_seen : ℤ) (e : HealthEvaluator)
    → IsWellFormed e
    → IsWellFormed (forget_stale now key last_seen e)
unfolding forget_stale
forget_stale-IsWellFormed now key last_seen e w =
    if_ind IsWellFormed _ (forget-IsWellFormed key e w) w

sweep_stale-IsWellFormed :
    (now : ℤ) (entries : Map Text ℤ) (e : HealthEvaluator)
    → IsWellFormed e
    → IsWellFormed (sweep_stale now entries e)
unfolding sweep_stale
sweep_stale-IsWellFormed now [] e w = w
sweep_stale-IsWellFormed now ((key, last_seen) ∷ entries) e w =
    sweep_stale-IsWellFormed now entries _ (forget_stale-IsWellFormed now key last_seen e w)

unflag-IsWellFormed :
    (e : HealthEvaluator) (key : Text)
    → IsWellFormed e
    → IsWellFormed (record e { unhealthy_pods = Map.erase key e.unhealthy_pods })
unflag-IsWellFormed e key w = record {
  violations = w.violations;
  recorded = w.recorded;
  last_seen = w.last_seen;
  unhealthy = erase-HasKeysOnce key e.unhealthy_pods w.unhealthy;
  flagged = erase-All (λ entry. entry.1 ≡ true) key e.unhealthy_pods w.flagged;
  configs = w.configs;
  buffered = w.buffered;
}

recover_parts-IsWellFormed :
    (e : HealthEvaluator) (key : Text) (parts : List Text)
    → IsWellFormed e
    → IsWellFormed (recover_parts e key parts).0
unfolding recover_parts
recover_parts-IsWellFormed e key (namespace ∷ name ∷ []) w = unflag-IsWellFormed e key w
recover_parts-IsWellFormed e key _ w = w

recover_pods-IsWellFormed :
    (keys : List Text) (e : HealthEvaluator) → IsWellFormed e → IsWellFormed (recover_pods e keys).0
unfolding recover_pods
recover_pods-IsWellFormed [] e w = w
recover_pods-IsWellFormed (key ∷ keys) e w =
    recover_pods-IsWellFormed keys _ (recover_parts-IsWellFormed e key (split_slash key) w)

pub cleaned-IsWellFormed :
    (e : HealthEvaluator) (now : ℤ) → IsWellFormed e → IsWellFormed (cleaned e now)
unfolding cleaned
cleaned-IsWellFormed e now w = sweep_stale-IsWellFormed now e.last_seen_times _ (record {
  violations = kept-HasKeysOnce e now e.violation_times w.violations;
  recorded = kept-recorded e now e.violation_times;
  last_seen = w.last_seen;
  unhealthy = w.unhealthy;
  flagged = w.flagged;
  configs = w.configs;
  buffered = w.buffered;
})

pub check_recovery_and_cleanup-IsWellFormed :
    (e : HealthEvaluator) (now : ℤ)
    → IsWellFormed e
    → IsWellFormed (check_recovery_and_cleanup e now).0
unfolding check_recovery_and_cleanup
check_recovery_and_cleanup-IsWellFormed e now w =
    recover_pods-IsWellFormed _ _ (cleaned-IsWellFormed e now w)
