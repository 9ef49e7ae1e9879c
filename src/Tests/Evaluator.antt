-- ===== src/Tests/Evaluator.antt =====
-- The evaluator on the events of one pod.
use compute_sentry.Prelude.{
  map, ◌++◌, ℕ, ◌*◌, true, false, not, ◌&&◌, ◌||◌, none, some, List, [], ◌∷◌, ◌≡◌, refl, arith, All,
  tally, if◌then◌else◌,
}
use compute_sentry.Prelude.Int.{ℤ, pos, wrap64, neg, ltb_ℤ, ◌≤ℤ◌, ◌+ℤ◌, ◌*ℤ◌}
use compute_sentry.Prelude.Text.{Text, codes, text_eq, text_beq, join_slash, until_nul}
use compute_sentry.Prelude.Map
use compute_sentry.Evaluator.{
  governance_config_annotation, pod_window, recovery_cutoff, HealthEvaluator, new_health_evaluator,
  start, seconds, times_of, flag_of, Limits, is_within, process_event, Input, send, receive, tick,
  sync, close, run,
}
use compute_sentry.Evaluator.Marking.{
  key_of, is_evaluated, violations_with, after, flag-process_event,
}
use compute_sentry.Evaluator.History.{Taken, is_condemned}
use compute_sentry.Evaluator.History.Calls.{statuses_for, statuses_for-run}
use compute_sentry.Evaluator.History.Runs.{receive_of, run-is_condemned}
use compute_sentry.Evaluator.Windows.{window-exact}
use compute_sentry.Evaluator.Sections.{IsSame, process_amid, process_amid-IsSame}
use compute_sentry.Tests.Mutator.{job}
use compute_sentry.Objects.{Pod}
use compute_sentry.Evaluator.Invariant.{IsWellFormed}
use compute_sentry.Evaluator.Invariant.Runs.{run-start-IsWellFormed}
use compute_sentry.Tests.Codec.{sample_config, sample_codec, sample_text}
use compute_sentry.System.{drained, run-listen}
use compute_sentry.Collector.{listen, failed, datagram}
use compute_sentry.Collector.Layout.{encode}
use compute_sentry.Tests.Collector.{hole, some_reads, all_reduce}

-- So many seconds after Go's zero time.
abbrev pub at : ℕ → ℤ
at n = pos (n * 1_000_000_000)

abbrev pub job_key : Text
job_key = codes "training/job"

abbrev pub watching : HealthEvaluator
watching = record {
  window_size = at 10;
  error_count_limit = pos 5;
  threshold_us = pos 500;
  violation_times = (job_key, at 1_000 ∷ []) ∷ [];
  last_seen_times = (job_key, at 1_000) ∷ [];
  unhealthy_pods = (job_key, true) ∷ [];
  pod_configs = (job_key, sample_config) ∷ [];
  has_client = true;
  node_name = codes "node-a";
  metrics_chan = [];
  stopped = false;
}

abbrev pub unflagged : HealthEvaluator
unflagged = record watching { unhealthy_pods = [] }

pub watching-IsWellFormed : IsWellFormed watching
unfolding Map.lookup
watching-IsWellFormed = record {
  violations = (refl, tt);
  recorded = (λ h. cc, tt);
  last_seen = (refl, tt);
  unhealthy = (refl, tt);
  flagged = (refl, tt);
  configs = (refl, tt);
  buffered = omega arith;
}

pub all_reduce-cached : Map.lookup (key_of all_reduce) unflagged.pod_configs ≡ some sample_config
unfolding Map.lookup until_nul join_slash text_beq
all_reduce-cached = refl

flag-process_event_example :
    flag_of
      (key_of all_reduce)
      (after sample_codec unflagged all_reduce none (at 1_001) (at 1_001)).unhealthy_pods
    ≡ (flag_of (key_of all_reduce) unflagged.unhealthy_pods
        || (is_evaluated all_reduce
            && true
            && ltb_ℤ (pos 1) (
                pos (
                  tally
                    (is_within (at 1_001) (seconds (pos 10)))
                    (violations_with unflagged all_reduce (at 1_001))))))
flag-process_event_example =
    flag-process_event sample_codec unflagged all_reduce none (at 1_001) (at 1_001) sample_config
      all_reduce-cached

-- The second slow operation within the window is one more than the limit of 1.
second_violation_flags :
    flag_of
      (key_of all_reduce)
      (after sample_codec unflagged all_reduce none (at 1_001) (at 1_001)).unhealthy_pods
    ≡ true
unfolding flag_of is_within seconds times_of Map.lookup ◌+ℤ◌ ◌*ℤ◌ neg wrap64 until_nul join_slash
    text_beq tally
second_violation_flags = rw flag-process_event_example refl

-- The job with its governance annotation.
abbrev annotated_job : Pod
annotated_job = record job { annotations = some ((governance_config_annotation, sample_text) ∷ []) }

abbrev inputs : List Input
inputs =
    send all_reduce ∷ receive none (at 1_000) (at 1_000) ∷ tick (at 1_020) ∷ sync none ∷ close ∷ []

run-start-IsWellFormed_example :
    IsWellFormed
      (run sample_codec inputs
        (start sample_codec
          (codes "node-a")
          true
          true
          (some (annotated_job ∷ []))
          (new_health_evaluator (pos 10) (pos 5) (pos 500))).0).0
run-start-IsWellFormed_example =
    run-start-IsWellFormed sample_codec (pos 10) (pos 5) (pos 500) (codes "node-a") true true
      (some (annotated_job ∷ [])) inputs

abbrev limits : Limits
limits = record { threshold = pos 500; window = at 10; limit = pos 1 }

process_amid-IsSame_example :
    IsSame
      (process_amid sample_codec unflagged all_reduce none
        (at 1_001)
        (at 1_001)
        (some (annotated_job ∷ []) ∷ none ∷ [])
        (some [] ∷ []))
      (process_event sample_codec unflagged all_reduce none (at 1_001) (at 1_001))
process_amid-IsSame_example =
    process_amid-IsSame sample_codec unflagged all_reduce none (at 1_001) (at 1_001)
      (some (annotated_job ∷ []) ∷ none ∷ []) (some [] ∷ [])

pub earlier_violations :
    All (λ t. t ≤ℤ at 1_001) (times_of (key_of all_reduce) unflagged.violation_times)
unfolding times_of Map.lookup until_nul join_slash text_beq
earlier_violations = (omega arith, tt)

-- Two slow operations of the job, a second apart.
abbrev traffic : List Taken
traffic =
    record { event = all_reduce; response = none; now = at 1_001; later = at 1_001 }
    ∷ record { event = all_reduce; response = none; now = at 1_002; later = at 1_002 }
    ∷ []

abbrev queued : HealthEvaluator
queued = record unflagged {
  violation_times = [];
  metrics_chan = all_reduce ∷ all_reduce ∷ all_reduce ∷ [];
}

run-is_condemned_example :
    flag_of (key_of all_reduce) (run sample_codec (map receive_of traffic) queued).0.unhealthy_pods
    ≡ (flag_of (key_of all_reduce) queued.unhealthy_pods
        || is_condemned sample_config
            (key_of all_reduce)
            (times_of (key_of all_reduce) queued.violation_times)
            traffic)
run-is_condemned_example =
    run-is_condemned sample_codec sample_config (key_of all_reduce) traffic (all_reduce ∷ []) queued
      refl refl all_reduce-cached

statuses_for-run_example :
    statuses_for (key_of all_reduce) (run sample_codec (map receive_of traffic) queued).1 ≡ (
      if not (flag_of (key_of all_reduce) queued.unhealthy_pods)
        && is_condemned sample_config
            (key_of all_reduce)
            (times_of (key_of all_reduce) queued.violation_times)
            traffic
      then "unhealthy" ∷ []
      else [])
statuses_for-run_example =
    statuses_for-run (key_of all_reduce) sample_codec sample_config traffic (all_reduce ∷ []) queued
      refl refl refl all_reduce-cached

two_condemn : is_condemned sample_config (key_of all_reduce) [] traffic ≡ true
unfolding is_condemned is_within seconds ◌+ℤ◌ ◌*ℤ◌ neg wrap64 until_nul join_slash text_beq tally
two_condemn = refl

watching-cached : Map.lookup job_key watching.pod_configs ≡ some sample_config
unfolding Map.lookup text_beq
watching-cached = refl

window-exact_example :
    (is_within (at 1_031) (pod_window watching job_key) (at 1_000)
      ≡ ltb_ℤ (at 1_031) (at 1_000 +ℤ pos (10 * 1_000_000_000)))
    × (recovery_cutoff watching job_key (at 1_031) +ℤ pos (10 * 3_000_000_000) ≡ at 1_031)
window-exact_example =
    window-exact watching job_key sample_config 10 (at 1_031) (at 1_000) watching-cached refl
      (omega arith)

run-listen_example :
    run sample_codec
      (map send
          (listen (failed ∷ datagram (encode all_reduce hole) ∷ datagram (codes "noise") ∷ []))
        ++ receive none (at 1_001) (at 1_001) ∷ [])
      (drained unflagged)
    ≡ process_event sample_codec (drained unflagged) all_reduce none (at 1_001) (at 1_001)
run-listen_example =
    run-listen sample_codec unflagged
      (failed ∷ datagram (encode all_reduce hole) ∷ datagram (codes "noise") ∷ []) all_reduce none
      (at 1_001) (at 1_001) some_reads
