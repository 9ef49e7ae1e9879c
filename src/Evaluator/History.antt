-- ===== src/Evaluator/History.antt =====
-- What a pod's violations so far say of it: an account of `processEvent` over many events without the
-- evaluator's maps.
pub mod Runs
pub mod Calls
use compute_sentry.Prelude.{
  Bool, true, false, Option, none, some, List, [], ◌∷◌, ◌++◌, ◌≡◌, refl, arith, ◌&&◌, ◌||◌, not,
  ◌==◌, ==_iff, if◌then◌else◌, tally,
}
use compute_sentry.Prelude.Int.{ℤ, pos, ltb_ℤ, int_beq}
use compute_sentry.Prelude.Text.{Text, text_eq, join_slash, until_nul}
use compute_sentry.Prelude.Map
use compute_sentry.Prelude.Map.{lookup-insert}
use compute_sentry.Api.{GovernanceConfig}
use compute_sentry.Api.Codec.{Codec}
use compute_sentry.Objects.{Pod}
use compute_sentry.Collector.{MetricEvent}
use compute_sentry.Evaluator.{
  HealthEvaluator, seconds, times_of, flag_of, fetch_and_cache_pod_config, annotated_config, cache,
  Limits, limits_of, is_within, add_violation, turns_unhealthy, evaluate, look_up, process_named,
  process_event,
}
use compute_sentry.Evaluator.Marking.{
  key_of, after, is_evaluated, violations_with, flag-process_event, process_event-SameAt,
}

-- An event that is taken, the response for it, and the two readings of the clock.
pub record Taken : Type 0 where
  pub event : MetricEvent
  pub response : Option Pod
  pub now : ℤ
  pub later : ℤ

module _ (config : GovernanceConfig) (key : Text) where
  -- An all-reduce of the pod, slower than its configuration allows.
  abbrev pub is_violation : Taken → Bool
  is_violation taken =
      key_of taken.event == key
      && is_evaluated taken.event
      && ltb_ℤ config.thresholds.max_nccl_latency_us taken.event.duration_us

  -- More of the times than the configuration allows are within its window.
  abbrev pub is_too_often : ℤ → List ℤ → Bool
  is_too_often later times =
      ltb_ℤ config.eval_config.error_count_limit
        (pos (tally (is_within later (seconds config.eval_config.window_size)) times))

  -- After some violation, the pod's violations up to it were too many in the window; `times` are those
  -- before.
  unfoldable pub is_condemned : List ℤ → List Taken → Bool
  is_condemned times [] = false
  is_condemned times (taken ∷ later_ones) =
      let seen = times ++ taken.now ∷ [] in
      let rest = is_condemned (if is_violation taken then seen else times) later_ones in
      (is_violation taken && is_too_often taken.later seen) || rest

module _ (codec : Codec) (e : HealthEvaluator) (taken : Taken) where
  abbrev pub result : HealthEvaluator
  result = after codec e taken.event taken.response taken.now taken.later

  pub times-process_event :
      (config : GovernanceConfig)
      → Map.lookup (key_of taken.event) e.pod_configs ≡ some config
      → times_of (key_of taken.event) result.violation_times ≡ (
          if is_evaluated taken.event
            && ltb_ℤ config.thresholds.max_nccl_latency_us taken.event.duration_us
          then violations_with e taken.event taken.now
          else times_of (key_of taken.event) e.violation_times)
  unfolding process_event process_named look_up evaluate limits_of add_violation times_of
  times-process_event config cached =
      let key = key_of taken.event in
      ground (
        arith,
        ==_iff key key,
        lookup-insert key key (violations_with e taken.event taken.now) e.violation_times,
      )

  pub config-process_event :
      (config : GovernanceConfig)
      → Map.lookup (key_of taken.event) e.pod_configs ≡ some config
      → Map.lookup (key_of taken.event) result.pod_configs ≡ some config
  unfolding process_event process_named look_up evaluate add_violation
  config-process_event config cached = ground arith
