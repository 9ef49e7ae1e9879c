-- ===== src/Agent/Forward.antt =====
-- What the main loop hands on.
use compute_sentry.Prelude.{
  ◌≤◌, Bool, true, some, List, [], ◌∷◌, ◌++◌, ◌≡◌, refl, arith, All, length, take, ltb,
  length-append, append_nil, append_assoc, take_all, take-append-take, take_full, length-take-le,
  Bool-cases, inl, inr, ltb→lt, le_of_not-ltb,
}
use compute_sentry.Prelude.Text.{Text}
use compute_sentry.Collector.{MetricEvent}
use compute_sentry.Evaluator.{HealthEvaluator, chan_capacity, offer}
use compute_sentry.Exporter.{Exporter, Call, observe_latency, add_ops, labels_of, record_event}
use compute_sentry.Agent.{Agent, forward, forward_event}

abbrev pub calls_of : Exporter → List MetricEvent → List Call
calls_of e [] = []
calls_of e (event ∷ events) =
    observe_latency (labels_of e event) event.duration_us
    ∷ add_ops (labels_of e event) event.count
    ∷ calls_of e events

-- The evaluator's buffer once the events have been offered.
abbrev pub filled : HealthEvaluator → List MetricEvent → HealthEvaluator
filled e events = record e { metrics_chan = take 1000 (e.metrics_chan ++ events) }

offer-filled :
    (event : MetricEvent) (e : HealthEvaluator)
    → length e.metrics_chan ≤ chan_capacity
    → offer event e ≡ filled e (event ∷ [])
unfolding offer
offer-filled event e h = elim (Bool-cases (ltb (length e.metrics_chan) chan_capacity)) [
  | inl fits ↦
      rw
        (
          fits,
          take_all chan_capacity (e.metrics_chan ++ event ∷ []) (
              omega (
                arith,
                ltb→lt (length e.metrics_chan) chan_capacity fits,
                length-append e.metrics_chan (event ∷ []),
              )),
        )
        refl
  | inr full ↦
      rw
        (
          full,
          take_full chan_capacity e.metrics_chan (event ∷ [])
              (omega (arith, h, le_of_not-ltb (length e.metrics_chan) chan_capacity full)),
        )
        refl
]

-- The main loop loses no event for the exporter: if WithLabelValues accepts each event's labels, and the
-- channel holds no more than its buffer at first, every event is recorded, in the order of arrival,
-- whatever the evaluator's channel holds; the channel gets the events that fit in its 1000 places, and
-- drops the later ones. The evaluator takes none meanwhile.
pub forward_lem :
    (accepts : List Text → Bool) (events : List MetricEvent) (agent : Agent)
    → All (λ event. accepts (labels_of agent.exporter event) ≡ true) events
    → length agent.evaluator.metrics_chan ≤ chan_capacity
    → forward accepts events agent
      ≡ some (record agent {
        calls = agent.calls ++ calls_of agent.exporter events;
        evaluator = filled agent.evaluator events;
      })
unfolding forward forward_event record_event
forward_lem accepts [] agent h k =
    rw
      (
        append_nil agent.calls,
        append_nil agent.evaluator.metrics_chan,
        take_all chan_capacity agent.evaluator.metrics_chan k,
      )
      refl
forward_lem accepts (event ∷ events) agent h k =
    let chan = agent.evaluator.metrics_chan in
    let calls = calls_of agent.exporter (event ∷ []) in
    rw
      (
        h.0,
        offer-filled event agent.evaluator k,
        forward_lem accepts events
            (record agent {
              calls = agent.calls ++ calls;
              evaluator = filled agent.evaluator (event ∷ []);
            })
            h.1 (length-take-le chan_capacity (chan ++ event ∷ [])),
        take-append-take chan_capacity (chan ++ event ∷ []) events,
        append_assoc chan (event ∷ []) events,
        append_assoc agent.calls calls (calls_of agent.exporter events),
      )
      refl
