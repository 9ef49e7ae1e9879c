-- ===== src/Evaluator/Silence.antt =====
-- Pods of which the evaluator holds no violation: the sweep passes them over, flagged or not.
use compute_sentry.Prelude.{
  Bool, true, false, Option, none, some, List, [], ◌∷◌, ◌≡◌, ◌≢◌, arith, All, All-append, All-map,
  if◌then◌else◌, ◌∙◌, ap, if_ind,
}
use compute_sentry.Prelude.Int.{ℤ, ◌<ℤ◌, ◌≤ℤ◌}
use compute_sentry.Prelude.Text.{Text, text_eq, join_slash, until_nul}
use compute_sentry.Prelude.Map
use compute_sentry.Prelude.Map.{Map}
use compute_sentry.Api.Codec.{Codec}
use compute_sentry.Objects.{Pod}
use compute_sentry.Collector.{MetricEvent}
use compute_sentry.Evaluator.{
  HealthEvaluator, PatchCall, zero_time, mark_pod_status, stop, offer, process_event, valid_times,
  latest_from, is_quiet, recovery_cutoff, keep_or_recover, sweep_violations, recover_pods, cleaned,
  check_recovery_and_cleanup, Input, send, receive, tick, sync, close, take_event, react, idle,
  step, run,
}
use compute_sentry.Evaluator.Violations.{violation_times-sweep, violation_times-sync}
use compute_sentry.Evaluator.Entries.{lookup-kept, is_listed, is_listed-recovered}
use compute_sentry.Evaluator.Marking.{key_of, after, process_event-SameAt, patches-process_event}
use compute_sentry.Evaluator.Invariant.{IsWellFormed}
use compute_sentry.Evaluator.Invariant.Runs.{step-IsWellFormed}
use compute_sentry.Evaluator.Recovery.{key_of_call, IsRecoveryOf, recover_pods-IsRecoveryOf}

-- No call concerns the pod, and no violation of it is on record afterwards.
pub record IsSilent (key : Text) (r : HealthEvaluator × List PatchCall) : Type 0 where
  pub forgotten : Map.lookup key r.0.violation_times ≡ none
  pub uncalled : All (λ call. key_of_call call ≢ key) r.1

-- A sweep that does not list the key makes no call for it.
pub unlisted :
    (key : Text) (e : HealthEvaluator) (keys : List Text)
    → is_listed key keys ≡ false
    → All (λ call. key_of_call call ≢ key) (recover_pods e keys).1
unlisted key e keys h =
    All-map (IsRecoveryOf keys) _ _ (λ call r same. clash call r same)
      (recover_pods-IsRecoveryOf keys e)
  where
    clash : (call : PatchCall) → IsRecoveryOf keys call → key_of_call call ≡ key → ⊥
    clash call r same = cc (r.1, h, ap (λ k. is_listed k keys) same)

sweep-IsSilent :
    (key : Text) (e : HealthEvaluator) (now : ℤ)
    → IsWellFormed e
    → Map.lookup key e.violation_times ≡ none
    → IsSilent key (check_recovery_and_cleanup e now)
unfolding check_recovery_and_cleanup
sweep-IsSilent key e now w h = record {
  forgotten =
      ap (Map.lookup key) (violation_times-sweep e now)
      ∙ ground (arith, lookup-kept e now key e.violation_times w.violations);
  uncalled =
      unlisted key (cleaned e now) (sweep_violations e now e.violation_times).1
        (ground (arith, is_listed-recovered e now key e.violation_times w.violations));
}

-- An event of another pod.
pub call-ne :
    (key : Text) (e : HealthEvaluator) (name namespace : Text) (told : Bool)
    → join_slash namespace name ≢ key
    → All
        (λ call. key_of_call call ≢ key)
        (if told then mark_pod_status e name namespace "unhealthy" else [])
unfolding mark_pod_status
call-ne key e name namespace true h = ground arith
call-ne key e name namespace false h = tt

event-IsSilent :
    (key : Text) (codec : Codec) (e : HealthEvaluator) (event : MetricEvent) (response : Option Pod)
    (now later : ℤ)
    → key_of event ≢ key
    → Map.lookup key e.violation_times ≡ none
    → IsSilent key (process_event codec e event response now later)
event-IsSilent key codec e event response now later other h = record {
  forgotten = (process_event-SameAt key codec e event response now later other).violations ∙ h;
  uncalled = rw (patches-process_event codec e event response now later) (
      call-ne key (after codec e event response now later) (until_nul event.pod_name)
        (until_nul event.pod_namespace) _ other);
}

-- The input is no event of the pod.
abbrev pub SparesEvents : Text → List MetricEvent → Type 0
SparesEvents key [] = Unit
SparesEvents key (event ∷ events) = key_of event ≢ key

abbrev pub Spares : Text → HealthEvaluator → Input → Type 0
Spares key e (receive response now later) = SparesEvents key e.metrics_chan
Spares key e _ = Unit

module _ (codec : Codec) (key : Text) where
  take-IsSilent :
      (events : List MetricEvent) (response : Option Pod) (now later : ℤ) (e : HealthEvaluator)
      → SparesEvents key events
      → Map.lookup key e.violation_times ≡ none
      → IsSilent key (take_event codec events response now later e)
  unfolding take_event
  take-IsSilent [] response now later e s h = record { forgotten = h; uncalled = tt }
  take-IsSilent (event ∷ events) response now later e s h =
      event-IsSilent key codec _ event response now later s h

  react-IsSilent :
      (input : Input) (e : HealthEvaluator)
      → IsWellFormed e
      → Spares key e input
      → Map.lookup key e.violation_times ≡ none
      → IsSilent key (react codec input e)
  unfolding react offer stop
  react-IsSilent (send event) e w s h = record { forgotten = ground arith; uncalled = tt }
  react-IsSilent (receive response now later) e w s h =
      take-IsSilent e.metrics_chan response now later e s h
  react-IsSilent (tick now) e w s h = sweep-IsSilent key e now w h
  react-IsSilent (sync response) e w s h = record {
    forgotten = ap (Map.lookup key) (violation_times-sync codec e response) ∙ h;
    uncalled = tt;
  }
  react-IsSilent close e w s h = record { forgotten = h; uncalled = tt }

  idle-IsSilent :
      (input : Input) (e : HealthEvaluator)
      → Map.lookup key e.violation_times ≡ none
      → IsSilent key (idle input e)
  unfolding idle offer
  idle-IsSilent (send event) e h = record { forgotten = ground arith; uncalled = tt }
  idle-IsSilent _ e h = record { forgotten = h; uncalled = tt }

  step-IsSilent :
      (input : Input) (e : HealthEvaluator)
      → IsWellFormed e
      → Spares key e input
      → Map.lookup key e.violation_times ≡ none
      → IsSilent key (step codec input e)
  unfolding step
  step-IsSilent input e w s h =
      if_ind (IsSilent key) e.stopped (idle-IsSilent input e h) (react-IsSilent input e w s h)

  -- No event of the pod is taken in the run.
  abbrev pub SparesAll : HealthEvaluator → List Input → Type 0
  SparesAll e [] = Unit
  SparesAll e (input ∷ inputs) = Spares key e input × SparesAll (step codec input e).0 inputs

  run-IsSilent :
      (inputs : List Input) (e : HealthEvaluator)
      → IsWellFormed e
      → SparesAll e inputs
      → Map.lookup key e.violation_times ≡ none
      → IsSilent key (run codec inputs e)
  unfolding run
  run-IsSilent [] e w s h = record { forgotten = h; uncalled = tt }
  run-IsSilent (input ∷ inputs) e w s h =
      let first = step-IsSilent input e w s.0 h in
      let rest = run-IsSilent inputs _ (step-IsWellFormed codec input e w) s.1 first.forgotten in
      record {
        forgotten = rest.forgotten;
        uncalled =
            All-append (λ call. key_of_call call ≢ key) (step codec input e).1 _ first.uncalled
              rest.uncalled;
      }

  -- A sweep that finds no violation in a pod's window, while the pod's last one is at most three
  -- windows old, deletes its record without reporting it healthy.
  early_sweep :
      (e : HealthEvaluator) (now : ℤ) (times : List ℤ)
      → IsWellFormed e
      → Map.lookup key e.violation_times ≡ some times
      → valid_times e key now times ≡ []
      → zero_time <ℤ latest_from zero_time times
      → recovery_cutoff e key now ≤ℤ latest_from zero_time times
      → IsSilent key (check_recovery_and_cleanup e now)
  unfolding check_recovery_and_cleanup is_quiet keep_or_recover
  early_sweep e now times w found expired real young = record {
    forgotten =
        ap (Map.lookup key) (violation_times-sweep e now)
        ∙ ground (arith, lookup-kept e now key e.violation_times w.violations);
    uncalled =
        unlisted key (cleaned e now) (sweep_violations e now e.violation_times).1
          (ground (arith, is_listed-recovered e now key e.violation_times w.violations));
  }

  step-tick :
      (e : HealthEvaluator) (now : ℤ)
      → e.stopped ≡ false
      → step codec (tick now) e ≡ check_recovery_and_cleanup e now
  unfolding step react
  step-tick e now on = ground arith

  -- A pod is never reported healthy again, once a sweep finds its last violation out of its window
  -- but at most three windows old: from then on, in any sequence of sweeps, syncs, and events of
  -- other pods, no call is made for it, flagged as it is.
  pub run-tick_too_early :
      (e : HealthEvaluator) (now : ℤ) (times : List ℤ) (inputs : List Input)
      → IsWellFormed e
      → e.stopped ≡ false
      → Map.lookup key e.violation_times ≡ some times
      → valid_times e key now times ≡ []
      → zero_time <ℤ latest_from zero_time times
      → recovery_cutoff e key now ≤ℤ latest_from zero_time times
      → SparesAll e (tick now ∷ inputs)
      → All (λ call. key_of_call call ≢ key) (run codec (tick now ∷ inputs) e).1
  unfolding run
  run-tick_too_early e now times inputs w on found expired real young s =
      let first : IsSilent key (step codec (tick now) e) =
        rw (step-tick e now on) (early_sweep e now times w found expired real young) in
      let rest =
        run-IsSilent inputs _ (step-IsWellFormed codec (tick now) e w) s.1 first.forgotten in
      All-append (λ call. key_of_call call ≢ key) (step codec (tick now) e).1 _ first.uncalled
        rest.uncalled
