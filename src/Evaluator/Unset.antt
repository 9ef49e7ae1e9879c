-- ===== src/Evaluator/Unset.antt =====
-- A configuration that leaves the window out.
use compute_sentry.Prelude.{
  Bool, false, Option, some, List, [], ◌∷◌, ◌≡◌, refl, arith, All, All-append, All-map, tally,
}
use compute_sentry.Prelude.Int.{ℤ, pos, ◌≤ℤ◌, ◌+ℤ◌, neg, wrap64}
use compute_sentry.Prelude.Text.{text_eq}
use compute_sentry.Prelude.Map
use compute_sentry.Api.{GovernanceConfig}
use compute_sentry.Api.Codec.{Codec}
use compute_sentry.Objects.{Pod}
use compute_sentry.Collector.{MetricEvent}
use compute_sentry.Evaluator.{HealthEvaluator, seconds, times_of, flag_of, is_within, process_event}
use compute_sentry.Evaluator.Marking.{
  key_of, after, violations_with, flag-process_event, patches-process_event,
}

tally-none {ℓ} :
    {A : Type ℓ} (p : A → Bool) (xs : List A) → All (λ x. p x ≡ false) xs → tally p xs ≡ 0
unfolding tally
tally-none p [] h = refl
tally-none p (x ∷ xs) h = ground (arith, tally-none p xs h.1)

not-is_within : (now t : ℤ) → t ≤ℤ now → is_within now (seconds (pos 0)) t ≡ false
unfolding is_within seconds ◌+ℤ◌ neg wrap64
not-is_within now t h = ground arith

-- A pod whose configuration leaves the window out (so that it is 0) is never flagged by an event,
-- and no call is made for it, as long as the limit is not negative and the clock does not run back.
pub no_window-never_flags :
    (codec : Codec) (e : HealthEvaluator) (event : MetricEvent) (response : Option Pod)
    (now later : ℤ) (config : GovernanceConfig)
    → Map.lookup (key_of event) e.pod_configs ≡ some config
    → config.eval_config.window_size ≡ pos 0
    → pos 0 ≤ℤ config.eval_config.error_count_limit
    → now ≤ℤ later
    → All (λ t. t ≤ℤ later) (times_of (key_of event) e.violation_times)
    → (flag_of (key_of event) (after codec e event response now later).unhealthy_pods
        ≡ flag_of (key_of event) e.unhealthy_pods)
      × ((process_event codec e event response now later).1 ≡ [])
no_window-never_flags codec e event response now later config cached unset limit order past =
    let key = key_of event in
    let none_within : tally (is_within later (seconds config.eval_config.window_size))
          (violations_with e event now)
        ≡ 0 =
      rw unset (
        tally-none _ (violations_with e event now) (
          All-map _ _ _ (not-is_within later)
            (All-append (λ t. t ≤ℤ later) _ (now ∷ []) past (order, tt)))) in
    let flag : flag_of key (after codec e event response now later).unhealthy_pods
        ≡ flag_of key e.unhealthy_pods =
      ground
        (arith, none_within, flag-process_event codec e event response now later config cached) in
    (flag, ground (arith, flag, patches-process_event codec e event response now later))
