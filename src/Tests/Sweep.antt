-- ===== src/Tests/Sweep.antt =====
-- The evaluator's sweep on one flagged pod, and the decision on the pod's node.
use compute_sentry.Prelude.{
  inr, select, false, true, some, none, [], ◌∷◌, ◌≡◌, ◌≢◌, refl, arith, All,
}
use compute_sentry.Prelude.Int.{wrap64, neg, ◌≤ℤ◌, ◌<ℤ◌, ◌+ℤ◌, ◌*ℤ◌}
use compute_sentry.Prelude.Text.{HasNoSlash, codes, text_eq, text_beq, join_slash}
use compute_sentry.Prelude.Map
use compute_sentry.Evaluator.{
  is_unnamed, zero_time, seconds, times_of, flag_of, is_within, valid_times, latest_from,
  recovery_cutoff, pod_window, health_annotation, check_recovery_and_cleanup, tick, run,
}
use compute_sentry.Evaluator.Recovery.{IsCalm, key_of_call, calls-check_recovery_and_cleanup}
use compute_sentry.Evaluator.Reports.{Includes, Includes-check_recovery_and_cleanup}
use compute_sentry.Evaluator.Silence.{run-tick_too_early}
use compute_sentry.Evaluator.Alternation.{all_due}
use compute_sentry.Evaluator.Alternation.Runs.{all_due-run}
use compute_sentry.Objects.{Pod, annotation}
use compute_sentry.Health.{is_unhealthy, count_pods, no_pods, decide}
use compute_sentry.System.Served.{served}
use compute_sentry.System.Recovery.{IsOver, recovery-untaints}
use compute_sentry.Tests.Mutator.{job}
use compute_sentry.Tests.Codec.{sample_codec}
use compute_sentry.Tests.Evaluator.{at, job_key, watching, watching-IsWellFormed}

calls-check_recovery_and_cleanup_example :
    All
      (λ call. (call.status ≡ "healthy") × IsCalm watching (at 1_031) (key_of_call call))
      (check_recovery_and_cleanup watching (at 1_031)).1
calls-check_recovery_and_cleanup_example =
    calls-check_recovery_and_cleanup watching (at 1_031) watching-IsWellFormed

long_quiet : IsCalm watching (at 1_031) (join_slash (codes "training") (codes "job"))
unfolding flag_of is_within pod_window recovery_cutoff seconds times_of Map.lookup join_slash
    text_beq ◌+ℤ◌ ◌*ℤ◌ neg wrap64
long_quiet = record { flagged = refl; expired = (refl, tt); quiet = (inr (omega arith), tt) }

job_on_record :
    Map.lookup (join_slash (codes "training") (codes "job")) watching.violation_times
    ≡ some (at 1_000 ∷ [])
unfolding Map.lookup join_slash text_beq
job_on_record = refl

job_named : is_unnamed (codes "job") ≡ false
unfolding text_beq
job_named = refl

no_slash : HasNoSlash (codes "training") × HasNoSlash (codes "job")
no_slash = omega arith

Includes-check_recovery_and_cleanup_example :
    Includes
      (check_recovery_and_cleanup watching (at 1_031)).1
      (record { name = codes "job"; namespace = codes "training"; status = "healthy" })
Includes-check_recovery_and_cleanup_example =
    Includes-check_recovery_and_cleanup (codes "training") (codes "job") no_slash.0 no_slash.1
      job_named watching (at 1_031) (at 1_000 ∷ []) watching-IsWellFormed refl job_on_record
      long_quiet

found : Map.lookup job_key watching.violation_times ≡ some (at 1_000 ∷ [])
unfolding Map.lookup text_beq
found = refl

all_expired : valid_times watching job_key (at 1_020) (at 1_000 ∷ []) ≡ []
unfolding select valid_times pod_window is_within seconds Map.lookup text_beq ◌+ℤ◌ ◌*ℤ◌ neg wrap64
all_expired = refl

still_young : recovery_cutoff watching job_key (at 1_020) ≤ℤ latest_from zero_time (at 1_000 ∷ [])
unfolding recovery_cutoff latest_from pod_window seconds Map.lookup text_beq ◌+ℤ◌ ◌*ℤ◌ neg wrap64
still_young = omega arith

real_time : zero_time <ℤ latest_from zero_time (at 1_000 ∷ [])
unfolding latest_from
real_time = omega arith

run-tick_too_early_example :
    All
      (λ call. key_of_call call ≢ job_key)
      (run sample_codec (tick (at 1_020) ∷ tick (at 2_000) ∷ []) watching).1
run-tick_too_early_example =
    run-tick_too_early sample_codec job_key watching (at 1_020) (at 1_000 ∷ [])
      (tick (at 2_000) ∷ []) watching-IsWellFormed refl found all_expired real_time still_young
      (tt, (tt, tt))

all_due-run_example :
    all_due job_key true (run sample_codec (tick (at 1_031) ∷ tick (at 2_000) ∷ []) watching).1
    ≡ true
all_due-run_example =
    all_due-run sample_codec job_key (tick (at 1_031) ∷ tick (at 2_000) ∷ []) watching true
      watching-IsWellFormed refl (λ flagged. refl)

-- The job with the patch of its second violation, and another one that was never patched.
abbrev sick_job : Pod
sick_job = record job { annotations = some ((health_annotation, "unhealthy") ∷ []) }

job-IsOver : IsOver watching (at 1_031) sick_job
job-IsOver = record {
  plain_namespace = no_slash.0;
  plain_name = no_slash.1;
  named = job_named;
  times = at 1_000 ∷ [];
  recorded = job_on_record;
  calm = long_quiet;
}

other_is_healthy : is_unhealthy job ≡ false
unfolding is_unhealthy annotation
other_is_healthy = refl

recovery-untaints_example :
    (decide none true (
      count_pods
        (served (check_recovery_and_cleanup watching (at 1_031)).1 (sick_job ∷ job ∷ []))
        no_pods)).should_untaint
    ≡ true
recovery-untaints_example =
    recovery-untaints watching (at 1_031) watching-IsWellFormed refl (sick_job ∷ job ∷ [])
      ((λ unhealthy. job-IsOver), ((λ unhealthy. cc (unhealthy, other_is_healthy)), tt))
