-- ===== src/Tests/System.antt =====
-- The parts together: a policy without a window, and a violation on its way to the decision on the node.
use compute_sentry.Prelude.{
  Bool, true, false, tally, ◌++◌, Option, none, some, String, [], ◌∷◌, ◌≡◌, refl, arith,
}
use compute_sentry.Prelude.Int.{pos, ltb_ℤ, ◌+ℤ◌, ◌*ℤ◌, neg, wrap64}
use compute_sentry.Prelude.Text.{until_nul, join_slash, text_beq}
use compute_sentry.Prelude.Map
use compute_sentry.Api.{ComputeSentryPolicy}
use compute_sentry.Api.Codec.{IsRepresentable}
use compute_sentry.Api.Json.RoundTrip.{json_codec}
use compute_sentry.Policies.{admit}
use compute_sentry.Evaluator.{
  HealthEvaluator, fetch_and_cache_pod_config, process_event, flag_of, is_within, seconds, times_of,
}
use compute_sentry.Evaluator.Marking.{key_of, after, is_evaluated, violations_with}
use compute_sentry.Mutator.{match_policy, gov_config, governance_of, inject}
use compute_sentry.Health.{count_pods, no_pods, decide}
use compute_sentry.System.Served.{served}
use compute_sentry.System.Alarm.{alarm-taints}
use compute_sentry.System.Windowless.{windowless_policy-never_flags}
use compute_sentry.Tests.Codec.{sample_config}
use compute_sentry.Tests.Collector.{all_reduce}
use compute_sentry.Tests.Evaluator.{at, unflagged, all_reduce-cached, earlier_violations}
use compute_sentry.Tests.Mutator.{answers, job, policy_of}

abbrev windowless_policy : ComputeSentryPolicy (Option Bool)
windowless_policy = record {
  name = "windowless";
  spec = record (policy_of (some true)).spec {
    eval_config = record { window_size = pos 0; error_count_limit = pos 1 };
  };
}

windowless_fits : IsRepresentable (gov_config windowless_policy)
unfolding gov_config
windowless_fits = record {
  latency = omega arith;
  jitter = omega arith;
  p2p = omega arith;
  hbm = omega arith;
  window = omega arith;
  limit = omega arith;
}

abbrev fetched : HealthEvaluator
fetched =
    (fetch_and_cache_pod_config json_codec unflagged (until_nul all_reduce.pod_namespace)
      (until_nul all_reduce.pod_name)
      (some (
        inject json_codec.marshal
          (governance_of (match_policy answers job.labels (windowless_policy ∷ []))) job))).0

windowless_policy-never_flags_example :
    (admit String none windowless_policy ≡ some windowless_policy)
    × (flag_of
          (key_of all_reduce)
          (after json_codec fetched all_reduce none (at 1_001) (at 1_001)).unhealthy_pods
        ≡ flag_of (key_of all_reduce) unflagged.unhealthy_pods)
    × ((process_event json_codec fetched all_reduce none (at 1_001) (at 1_001)).1 ≡ [])
windowless_policy-never_flags_example =
    windowless_policy-never_flags String answers none (windowless_policy ∷ []) windowless_policy job
      unflagged all_reduce none (at 1_001) (at 1_001) refl (omega arith) windowless_fits
      (unfold match_policy in refl) refl (omega arith) earlier_violations

-- The second slow operation of the job flags it.
slow_and_often :
    (is_evaluated all_reduce ≡ true)
    × (ltb_ℤ sample_config.thresholds.max_nccl_latency_us all_reduce.duration_us ≡ true)
    × (ltb_ℤ sample_config.eval_config.error_count_limit (
          pos (
            tally
              (is_within (at 1_001) (seconds sample_config.eval_config.window_size))
              (violations_with unflagged all_reduce (at 1_001))))
        ≡ true)
unfolding is_within seconds times_of Map.lookup ◌+ℤ◌ ◌*ℤ◌ neg wrap64 until_nul join_slash text_beq
    tally
slow_and_often = (refl, refl, refl)

not_flagged : flag_of (key_of all_reduce) unflagged.unhealthy_pods ≡ false
unfolding flag_of Map.lookup
not_flagged = refl

alarm-taints_example :
    (decide none false (
      count_pods
        (served
          (process_event json_codec unflagged all_reduce none (at 1_001) (at 1_001)).1
          ([] ++ job ∷ []))
        no_pods)).should_taint
    ≡ true
alarm-taints_example =
    alarm-taints json_codec unflagged all_reduce none (at 1_001) (at 1_001) sample_config [] job []
      all_reduce-cached not_flagged refl slow_and_often.0 slow_and_often.1 slow_and_often.2
      (unfold until_nul in refl) (unfold until_nul in refl)
