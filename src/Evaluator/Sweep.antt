-- ===== src/Evaluator/Sweep.antt =====
-- `checkRecoveryAndCleanup` of agent/collector/evaluator.go.
use compute_sentry.Prelude.{
  Bool, false, List, [], ◌∷◌, ◌&&◌, ◌||◌, ◌++◌, if◌then◌else◌, maybe, select,
}
use compute_sentry.Prelude.Int.{ℤ, wrap64, neg, ◌+ℤ◌, ◌*ℤ◌, ltb_ℤ, int_beq}
use compute_sentry.Prelude.Text.{Text, split_slash, text_eq}
use compute_sentry.Prelude.Map
use compute_sentry.Prelude.Map.{Map}
use compute_sentry.Evaluator.State.{
  HealthEvaluator, PatchCall, seconds, flag_of, mark_pod_status, zero_time, recovery_multiplier,
}
use compute_sentry.Evaluator.Process.{is_within}

-- The pod's own window, if its configuration is cached.
unfoldable pub pod_window : HealthEvaluator → Text → ℤ
pod_window e key =
    maybe (Map.lookup key e.pod_configs) e.window_size
      (λ config. seconds config.eval_config.window_size)

-- now.Add(-windowSize * RecoveryMultiplier)
unfoldable pub recovery_cutoff : HealthEvaluator → Text → ℤ → ℤ
recovery_cutoff e key now = now +ℤ wrap64 (wrap64 (neg (pod_window e key)) *ℤ recovery_multiplier)

-- The loop's `valid`.
unfoldable pub valid_times : HealthEvaluator → Text → ℤ → List ℤ → List ℤ
valid_times e key now times = select (is_within now (pod_window e key)) times

-- The loop's `latestViolation`, from its value so far.
unfoldable pub latest_from : ℤ → List ℤ → ℤ
latest_from latest [] = latest
latest_from latest (t ∷ times) = latest_from (if ltb_ℤ latest t then t else latest) times

-- The test for recovery of a pod without violations in its window.
unfoldable pub is_quiet : HealthEvaluator → Text → ℤ → List ℤ → Bool
is_quiet e key now times =
    let latest = latest_from zero_time times in
    flag_of key e.unhealthy_pods
    && (int_beq latest zero_time || ltb_ℤ latest (recovery_cutoff e key now))

-- One round of the first loop: the entry that is left, if any, and whether the pod recovers.
unfoldable pub keep_or_recover : HealthEvaluator → Text → ℤ → List ℤ → List ℤ × Bool
keep_or_recover e key now times = elim (valid_times e key now times) [
  | [] ↦ ([], is_quiet e key now times)
  | t ∷ valid ↦ (t ∷ valid, false)
]

-- The first loop: the entries of `violationTimes` that are left, and `podsToRecover`.
unfoldable pub sweep_violations :
    HealthEvaluator → ℤ → Map Text (List ℤ) → Map Text (List ℤ) × List Text
sweep_violations e now [] = ([], [])
sweep_violations e now ((key, times) ∷ entries) =
    let rest = sweep_violations e now entries in
    let round = keep_or_recover e key now times in
    (
      elim round.0 [ [] ↦ rest.0 | t ∷ valid ↦ (key, t ∷ valid) ∷ rest.0 ],
      if round.1 then key ∷ rest.1 else rest.1,
    )

-- The three deletions of the second loop.
unfoldable pub forget : Text → HealthEvaluator → HealthEvaluator
forget key e = record e {
  last_seen_times = Map.erase key e.last_seen_times;
  unhealthy_pods = Map.erase key e.unhealthy_pods;
  pod_configs = Map.erase key e.pod_configs;
}

-- The body of the second loop.
unfoldable pub forget_stale : ℤ → Text → ℤ → HealthEvaluator → HealthEvaluator
forget_stale now key last_seen e =
    if ltb_ℤ last_seen (recovery_cutoff e key now) then forget key e else e

-- The second loop, over the entries of `lastSeenTimes`.
unfoldable pub sweep_stale : ℤ → Map Text ℤ → HealthEvaluator → HealthEvaluator
sweep_stale now [] e = e
sweep_stale now ((key, last_seen) ∷ entries) e =
    sweep_stale now entries (forget_stale now key last_seen e)

-- The body of the third loop: a key that does not have two parts is passed over.
unfoldable pub recover_parts : HealthEvaluator → Text → List Text → HealthEvaluator × List PatchCall
recover_parts e key (namespace ∷ name ∷ []) = (
  record e { unhealthy_pods = Map.erase key e.unhealthy_pods },
  mark_pod_status e name namespace "healthy",
)
recover_parts e key _ = (e, [])

-- The third loop.
unfoldable pub recover_pods : HealthEvaluator → List Text → HealthEvaluator × List PatchCall
recover_pods e [] = (e, [])
recover_pods e (key ∷ keys) =
    let round = recover_parts e key (split_slash key) in
    let rest = recover_pods round.0 keys in (rest.0, round.1 ++ rest.1)

-- The state when the lock is released for the third loop.
unfoldable pub cleaned : HealthEvaluator → ℤ → HealthEvaluator
cleaned e now =
    sweep_stale now e.last_seen_times
      (record e { violation_times = (sweep_violations e now e.violation_times).0 })

unfoldable pub check_recovery_and_cleanup : HealthEvaluator → ℤ → HealthEvaluator × List PatchCall
check_recovery_and_cleanup e now =
    recover_pods (cleaned e now) (sweep_violations e now e.violation_times).1
