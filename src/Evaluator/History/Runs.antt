-- ===== src/Evaluator/History/Runs.antt =====
-- A pod's flag after the evaluator has taken any number of events.
use compute_sentry.Prelude.{
  true, false, Option, none, some, List, [], ◌∷◌, ◌++◌, map, ◌≡◌, ◌≢◌, ◌∙◌, refl, ap, arith, ◌&&◌,
  ◌||◌, ◌==◌, ==_iff, Bool-cases, inl, inr, if◌then◌else◌,
}
use mathlib.Core.Path.{subst}
use compute_sentry.Prelude.Int.{ℤ}
use compute_sentry.Prelude.Text.{Text, text_eq, until_nul}
use compute_sentry.Prelude.Map
use compute_sentry.Api.{GovernanceConfig}
use compute_sentry.Api.Codec.{Codec}
use compute_sentry.Objects.{Pod}
use compute_sentry.Collector.{MetricEvent}
use compute_sentry.Evaluator.{
  HealthEvaluator, PatchCall, times_of, flag_of, cache, fetch_and_cache_pod_config, add_violation,
  evaluate, look_up, process_named, process_event, Input, receive, take_event, react, step, run,
}
use compute_sentry.Evaluator.Marking.{key_of, process_event-SameAt, flag-process_event}
use compute_sentry.Evaluator.History.{
  Taken, is_violation, is_too_often, is_condemned, result, times-process_event,
  config-process_event,
}

-- The response and the readings of the clock with which an event is taken.
abbrev pub receive_of : Taken → Input
receive_of taken = receive taken.response taken.now taken.later

-- How one event moves what the account of a pod is made of.
pub record Advances (config : GovernanceConfig) (key : Text) (taken : Taken)
    (e e' : HealthEvaluator) : Type 0 where
  pub flag : flag_of key e'.unhealthy_pods ≡ (
      flag_of key e.unhealthy_pods
      || (is_violation config key taken
          && is_too_often config key taken.later
              (times_of key e.violation_times ++ taken.now ∷ [])))
  pub times : times_of key e'.violation_times ≡ (
      if is_violation config key taken
      then times_of key e.violation_times ++ taken.now ∷ []
      else times_of key e.violation_times)
  pub cached : Map.lookup key e'.pod_configs ≡ some config

module _ (codec : Codec) (config : GovernanceConfig) where
  own-Advances :
      (e : HealthEvaluator) (taken : Taken)
      → Map.lookup (key_of taken.event) e.pod_configs ≡ some config
      → Advances config (key_of taken.event) taken e (result codec e taken)
  own-Advances e taken cached =
      let own : (key_of taken.event == key_of taken.event) ≡ true =
        (==_iff (key_of taken.event) (key_of taken.event)).1 refl in
      record {
        flag =
            rw
              (
                flag-process_event codec e taken.event taken.response taken.now taken.later config
                    cached,
                own,
              )
              refl;
        times = rw (times-process_event codec e taken config cached, own) refl;
        cached = config-process_event codec e taken config cached;
      }

  other-Advances :
      (key : Text) (e : HealthEvaluator) (taken : Taken)
      → key_of taken.event ≢ key
      → (key_of taken.event == key) ≡ false
      → Map.lookup key e.pod_configs ≡ some config
      → Advances config key taken e (result codec e taken)
  unfolding flag_of times_of
  other-Advances key e taken ne other cached =
      let same =
        process_event-SameAt key codec e taken.event taken.response taken.now taken.later ne in
      record {
        flag = ground (arith, same.unhealthy, other);
        times = rw (same.violations, other) refl;
        cached = same.config ∙ cached;
      }

  pub result-Advances :
      (key : Text) (e : HealthEvaluator) (taken : Taken)
      → Map.lookup key e.pod_configs ≡ some config
      → Advances config key taken e (result codec e taken)
  result-Advances key e taken cached = elim (Bool-cases (key_of taken.event == key)) [
    | inl same ↦
        let own : key_of taken.event ≡ key = (==_iff (key_of taken.event) key).0 same in
        subst (λ k. Advances config k taken e (result codec e taken)) own
          (own-Advances e taken (ap (λ k. Map.lookup k e.pod_configs) own ∙ cached))
    | inr other ↦
        other-Advances key e taken (λ h. ground (arith, ==_iff (key_of taken.event) key, h, other))
          other cached
  ]

  -- A running evaluator takes the first event of its channel.
  pub step-receive :
      (e : HealthEvaluator) (taken : Taken) (events : List MetricEvent)
      → e.stopped ≡ false
      → e.metrics_chan ≡ taken.event ∷ events
      → step codec (receive taken.response taken.now taken.later) e
        ≡ process_event codec
            (record e { metrics_chan = events })
            taken.event
            taken.response
            taken.now
            taken.later
  unfolding step react take_event
  step-receive e taken events on chan = rw (on, chan) refl

  look_up-keeps :
      (e : HealthEvaluator) (namespace name : Text) (response : Option Pod) (now : ℤ)
      → ((look_up codec e namespace name response now).0.metrics_chan ≡ e.metrics_chan)
        × ((look_up codec e namespace name response now).0.stopped ≡ e.stopped)
  unfolding look_up fetch_and_cache_pod_config cache
  look_up-keeps e namespace name none now = ground arith
  look_up-keeps e namespace name (some pod) now = ground arith

  pub process_event-keeps :
      (e : HealthEvaluator) (taken : Taken)
      → ((result codec e taken).metrics_chan ≡ e.metrics_chan)
        × ((result codec e taken).stopped ≡ e.stopped)
  unfolding process_event process_named evaluate add_violation
  process_event-keeps e taken = ground (
    arith,
    look_up-keeps e (until_nul taken.event.pod_namespace) (until_nul taken.event.pod_name)
        taken.response taken.now,
  )

  -- The evaluator keeps the account of a pod: a running evaluator that takes any number of events of
  -- any pods from its channel, with a configuration of the pod in its cache, has the pod flagged in the
  -- end exactly if it had before, or at some slow all-reduce of the pod more of the pod's violations
  -- than the configuration allows, those on record before and this one included, were within the
  -- configured window.
  pub run-is_condemned :
      (key : Text) (trace : List Taken) (behind : List MetricEvent) (e : HealthEvaluator)
      → e.stopped ≡ false
      → e.metrics_chan ≡ map (λ taken. taken.event) trace ++ behind
      → Map.lookup key e.pod_configs ≡ some config
      → flag_of key (run codec (map receive_of trace) e).0.unhealthy_pods ≡ (
          flag_of key e.unhealthy_pods
          || is_condemned config key (times_of key e.violation_times) trace)
  unfolding run is_condemned
  run-is_condemned key [] behind e on chan cached = ground arith
  run-is_condemned key (taken ∷ trace) behind e on chan cached =
      let e' : HealthEvaluator = record e { metrics_chan = map (λ t. t.event) trace ++ behind } in
      let keeps = process_event-keeps e' taken in
      let first = result-Advances key e' taken cached in
      let rest =
        run-is_condemned key trace behind (result codec e' taken) (keeps.1 ∙ on) keeps.0
          first.cached in
      ap
        (λ (r : HealthEvaluator × List PatchCall).
          flag_of key (run codec (map receive_of trace) r.0).0.unhealthy_pods)
        (step-receive e taken _ on chan)
      ∙ rest
      ∙ ground (arith, first.flag, first.times)
