-- ===== src/Tests/Operator.antt =====
-- The operator's start without webhooks.
use compute_sentry.Prelude.{Bool, true, false, ◌&&◌, ◌≡◌, refl, string_eq, exists}
use compute_sentry.Operator.{Step, policy_webhook, steps_of, run_main}
use compute_sentry.Operator.Startup.{Runs, is_start_manager, is_pod_mutator, run_main_lem}

abbrev without_webhook : Step → Bool
without_webhook policy_webhook = false
without_webhook _ = true

run_main_lem_example :
    let starts = exists is_start_manager (run_main without_webhook "false").0 in
    Runs without_webhook (steps_of "false") (run_main without_webhook "false")
    × (starts ≡ true)
    × ((starts && exists is_pod_mutator (run_main without_webhook "false").0) ≡ (starts && false))
run_main_lem_example = run_main_lem without_webhook "false" refl
