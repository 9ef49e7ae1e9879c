-- ===== src/Evaluator/Invariant/Runs.antt =====
-- The evaluator's invariant and its loops.
use compute_sentry.Prelude.{
  ◌≤◌, Bool, true, not, Option, List, [], ◌∷◌, arith, if_ind, length, length-append, ltb,
  Bool-cases, inl, inr,
}
use compute_sentry.Prelude.Int.{ℤ}
use compute_sentry.Prelude.Text.{Text}
use compute_sentry.Api.Codec.{Codec}
use compute_sentry.Objects.{Pod}
use compute_sentry.Collector.{MetricEvent}
use compute_sentry.Evaluator.{
  HealthEvaluator, new_health_evaluator, StartError, start, chan_capacity, offer, stop, Input, send,
  receive, tick, sync, close, take_event, react, idle, step, run,
}
use compute_sentry.Evaluator.Invariant.{
  IsWellFormed, HoldsAfter, new-IsWellFormed, sync-IsWellFormed, process_event-IsWellFormed,
}
use compute_sentry.Evaluator.Invariant.Sweeps.{check_recovery_and_cleanup-IsWellFormed}

-- A shorter buffer, and nothing else changed.
rebuffer-IsWellFormed :
    (e : HealthEvaluator) (events : List MetricEvent)
    → length events ≤ chan_capacity
    → IsWellFormed e
    → IsWellFormed (record e { metrics_chan = events })
rebuffer-IsWellFormed e events h w = record {
  violations = w.violations;
  recorded = w.recorded;
  last_seen = w.last_seen;
  unhealthy = w.unhealthy;
  flagged = w.flagged;
  configs = w.configs;
  buffered = h;
}

-- The main loop's send never fills the channel beyond its buffer.
pub offer-IsWellFormed :
    (event : MetricEvent) (e : HealthEvaluator) → IsWellFormed e → IsWellFormed (offer event e)
unfolding offer
offer-IsWellFormed event e w = elim (Bool-cases (ltb (length e.metrics_chan) chan_capacity)) [
  | inl room ↦
      simp room
        (rebuffer-IsWellFormed e _ (ground (arith, length-append e.metrics_chan (event ∷ []))) w)
  | inr full ↦ simp full w
]

stop-IsWellFormed : (e : HealthEvaluator) → IsWellFormed e → IsWellFormed (stop e)
unfolding stop
stop-IsWellFormed e w = ground arith

module _ (codec : Codec) where
  take_event-IsWellFormed :
      (events : List MetricEvent) (response : Option Pod) (now later : ℤ) (e : HealthEvaluator)
      → length events ≤ chan_capacity
      → IsWellFormed e
      → IsWellFormed (take_event codec events response now later e).0
  unfolding take_event
  take_event-IsWellFormed [] response now later e h w = w
  take_event-IsWellFormed (event ∷ events) response now later e h w =
      process_event-IsWellFormed codec _ event response now later
        (rebuffer-IsWellFormed e events (omega arith) w)

  react-IsWellFormed :
      (input : Input) (e : HealthEvaluator) → IsWellFormed e → IsWellFormed (react codec input e).0
  unfolding react
  react-IsWellFormed (send event) e w = offer-IsWellFormed event e w
  react-IsWellFormed (receive response now later) e w =
      take_event-IsWellFormed e.metrics_chan response now later e w.buffered w
  react-IsWellFormed (tick now) e w = check_recovery_and_cleanup-IsWellFormed e now w
  react-IsWellFormed (sync response) e w = sync-IsWellFormed codec e response w
  react-IsWellFormed close e w = stop-IsWellFormed e w

  idle-IsWellFormed :
      (input : Input) (e : HealthEvaluator) → IsWellFormed e → IsWellFormed (idle input e).0
  unfolding idle
  idle-IsWellFormed (send event) e w = offer-IsWellFormed event e w
  idle-IsWellFormed _ e w = w

  pub step-IsWellFormed :
      (input : Input) (e : HealthEvaluator) → IsWellFormed e → IsWellFormed (step codec input e).0
  unfolding step
  step-IsWellFormed input e w =
      if_ind HoldsAfter _ (idle-IsWellFormed input e w) (react-IsWellFormed input e w)

  run-IsWellFormed :
      (inputs : List Input) (e : HealthEvaluator)
      → IsWellFormed e
      → IsWellFormed (run codec inputs e).0
  unfolding run
  run-IsWellFormed [] e w = w
  run-IsWellFormed (input ∷ inputs) e w = run-IsWellFormed inputs _ (step-IsWellFormed input e w)

  identified-IsWellFormed :
      (node_name : Text) (client : Bool) (e : HealthEvaluator)
      → IsWellFormed e
      → IsWellFormed (record e { node_name = node_name; has_client = client })
  identified-IsWellFormed node_name client e w = record {
    violations = w.violations;
    recorded = w.recorded;
    last_seen = w.last_seen;
    unhealthy = w.unhealthy;
    flagged = w.flagged;
    configs = w.configs;
    buffered = w.buffered;
  }

  start-IsWellFormed :
      (node_name : Text) (in_cluster clientset : Bool) (response : Option (List Pod))
      (e : HealthEvaluator)
      → IsWellFormed e
      → IsWellFormed (start codec node_name in_cluster clientset response e).0
  unfolding start
  start-IsWellFormed node_name in_cluster clientset response e w =
      let named = identified-IsWellFormed node_name e.has_client e w in
      let started =
        sync-IsWellFormed codec _ response (identified-IsWellFormed node_name true e w) in
      if_ind (λ (r : HealthEvaluator × Option StartError). IsWellFormed r.0) (not in_cluster) named
        (if_ind (λ (r : HealthEvaluator × Option StartError). IsWellFormed r.0) (not clientset)
          named started)

  -- From a new evaluator, after Start, which may fail at the cluster's configuration or at the
  -- clientset, and any sequence of sends, events, sweeps, syncs and stops, every map holds a key once,
  -- no pod is on record without a violation, every flag on record is set, and the channel holds no
  -- more events than its buffer.
  pub run-start-IsWellFormed :
      (window limit threshold : ℤ) (node_name : Text) (in_cluster clientset : Bool)
      (response : Option (List Pod)) (inputs : List Input)
      → IsWellFormed
          (run codec inputs
            (start codec node_name in_cluster clientset response
              (new_health_evaluator window limit threshold)).0).0
  run-start-IsWellFormed window limit threshold node_name in_cluster clientset response inputs =
      run-IsWellFormed inputs _ (
        start-IsWellFormed node_name in_cluster clientset response _
          (new-IsWellFormed window limit threshold))
