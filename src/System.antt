-- ===== src/System.antt =====
-- The parts together: a datagram of the spy library on its way to the evaluator.
pub mod Windowless
pub mod Served
pub mod Alarm
pub mod Recovery
use compute_sentry.Prelude.{false, Option, List, [], ◌∷◌, ◌++◌, map, ◌≡◌, refl, append_nil}
use compute_sentry.Prelude.Int.{ℤ}
use compute_sentry.Api.Codec.{Codec}
use compute_sentry.Objects.{Pod}
use compute_sentry.Collector.{MetricEvent, Read, listen}
use compute_sentry.Collector.Stream.{Arrives, listen-Arrives}
use compute_sentry.Evaluator.{
  HealthEvaluator, offer, process_event, send, receive, take_event, react, step, run,
}

-- The evaluator while it runs, with nothing in its channel.
abbrev pub drained : HealthEvaluator → HealthEvaluator
drained e = record e { metrics_chan = []; stopped = false }

-- An event that the spy library sends is evaluated as it was sent: where the reads of the socket carry
-- one event, among failed reads and short datagrams, a running evaluator with an empty channel, to which
-- the main loop hands what the collector receives, and which then takes an event, handles that event,
-- and makes the calls for it, and no others.
pub run-listen :
    (codec : Codec) (e : HealthEvaluator) (reads : List Read) (event : MetricEvent)
    (response : Option Pod) (now later : ℤ)
    → Arrives reads (event ∷ [])
    → run codec (map send (listen reads) ++ receive response now later ∷ []) (drained e)
      ≡ process_event codec (drained e) event response now later
unfolding run step react offer take_event
run-listen codec e reads event response now later arrives =
    rw
      (
        listen-Arrives arrives,
        append_nil (process_event codec (drained e) event response now later).1,
      )
      refl
