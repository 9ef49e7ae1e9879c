-- ===== src/Evaluator/Loop.antt =====
-- `runLoop` and `periodicSync` of agent/collector/evaluator.go, as one sequence of what happens.
use compute_sentry.Prelude.{Option, List, [], ◌∷◌, ◌++◌, if◌then◌else◌}
use compute_sentry.Prelude.Int.{ℤ}
use compute_sentry.Api.Codec.{Codec}
use compute_sentry.Objects.{Pod}
use compute_sentry.Collector.{MetricEvent}
use compute_sentry.Evaluator.State.{HealthEvaluator, PatchCall, sync_node_pods, stop, offer}
use compute_sentry.Evaluator.Process.{process_event}
use compute_sentry.Evaluator.Sweep.{check_recovery_and_cleanup}

-- What the goroutines meet: the main loop sends an event, `runLoop` takes one (with the response of
-- a Get call and two readings of the clock), its ticker fires, that of `periodicSync` fires (with
-- the response of the List call), or both loops have returned after Stop: an event, a tick or a sync that
-- a select still takes once stopChan is closed is an input before `close`.
pub data Input : Type 0 where
  send : MetricEvent → Input
  receive : Option Pod → ℤ → ℤ → Input
  tick : ℤ → Input
  sync : Option (List Pod) → Input
  close : Input

-- The case `event := <-e.metricsChan` of the select. With an empty buffer it is not taken.
unfoldable pub take_event :
    Codec
    → List MetricEvent
    → Option Pod
    → ℤ
    → ℤ
    → HealthEvaluator
    → HealthEvaluator × List PatchCall
take_event codec [] response now later e = (e, [])
take_event codec (event ∷ events) response now later e =
    process_event codec (record e { metrics_chan = events }) event response now later

-- A running evaluator.
unfoldable pub react : Codec → Input → HealthEvaluator → HealthEvaluator × List PatchCall
react codec (send event) e = (offer event e, [])
react codec (receive response now later) e = take_event codec e.metrics_chan response now later e
react codec (tick now) e = check_recovery_and_cleanup e now
react codec (sync response) e = (sync_node_pods codec e response, [])
react codec close e = (stop e, [])

-- After `close` both loops have returned; only the main loop still sends.
unfoldable pub idle : Input → HealthEvaluator → HealthEvaluator × List PatchCall
idle (send event) e = (offer event e, [])
idle _ e = (e, [])

unfoldable pub step : Codec → Input → HealthEvaluator → HealthEvaluator × List PatchCall
step codec input e = if e.stopped then idle input e else react codec input e

unfoldable pub run : Codec → List Input → HealthEvaluator → HealthEvaluator × List PatchCall
run codec [] e = (e, [])
run codec (input ∷ inputs) e =
    let done = step codec input e in
    let rest = run codec inputs done.0 in (rest.0, done.1 ++ rest.1)
