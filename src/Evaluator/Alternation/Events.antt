-- ===== src/Evaluator/Alternation/Events.antt =====
-- The call of an event, and the pod's flag.
use compute_sentry.Prelude.{
  Bool, true, false, Option, [], ◌≡◌, ◌≢◌, ◌∙◌, arith, ◌==◌, ==_iff, Bool-cases, inl, inr,
}
use compute_sentry.Prelude.Int.{ℤ}
use compute_sentry.Prelude.Text.{Text, text_eq, join_slash, until_nul}
use compute_sentry.Api.Codec.{Codec}
use compute_sentry.Objects.{Pod}
use compute_sentry.Collector.{MetricEvent}
use compute_sentry.Evaluator.{HealthEvaluator, flag_of, is_unnamed, mark_pod_status, process_event}
use compute_sentry.Evaluator.Clients.{has_client-process_event}
use compute_sentry.Evaluator.Marking.{key_of, after, process_event-SameAt, patches-process_event}
use compute_sentry.Evaluator.Silence.{call-ne}
use compute_sentry.Evaluator.Alternation.{
  tells, told, is_due, all_due, IsKnown, Follows, others-Follows,
}

module _ (key : Text) (codec : Codec) (e : HealthEvaluator) (event : MetricEvent)
    (response : Option Pod) (now later : ℤ) where
  other_event :
      (b : Bool)
      → key_of event ≢ key
      → IsKnown key e b
      → Follows key b (process_event codec e event response now later)
  unfolding flag_of
  other_event b other known =
      let same = process_event-SameAt key codec e event response now later other in
      others-Follows e _ _
        (rw (patches-process_event codec e event response now later) (
          call-ne key (after codec e event response now later) (until_nul event.pod_name)
            (until_nul event.pod_namespace) _ other))
        known (λ flagged. ground (arith, same.unhealthy, flagged))

  -- An event of a pod without a name changes nothing.
  pub unnamed_event :
      is_unnamed (until_nul event.pod_name) ≡ true
      → process_event codec e event response now later ≡ (e, [])
  unfolding process_event
  unnamed_event h = ground arith

  -- The call that the flag brings.
  unhealthy_call :
      (f : HealthEvaluator) (name namespace : Text) (b : Bool)
      → f.has_client ≡ true
      → is_unnamed name ≡ false
      → join_slash namespace name ≡ key
      → (all_due key b (mark_pod_status f name namespace "unhealthy") ≡ true)
        × (told key b (mark_pod_status f name namespace "unhealthy") ≡ true)
  unfolding mark_pod_status all_due told is_due tells
  unhealthy_call f name namespace b client named same =
      ground (arith, ==_iff (join_slash namespace name) key)

  named_event :
      (b : Bool)
      → is_unnamed (until_nul event.pod_name) ≡ false
      → key_of event ≡ key
      → e.has_client ≡ true
      → IsKnown key e b
      → Follows key b (process_event codec e event response now later)
  unfolding all_due told
  named_event b named own client known =
      let calls = patches-process_event codec e event response now later in
      let call =
        unhealthy_call (after codec e event response now later) (until_nul event.pod_name)
          (until_nul event.pod_namespace) b
          (has_client-process_event codec e event response now later ∙ client) named own in
      record {
        due = ground (arith, calls, call);
        known = λ flagged. ground (arith, calls, call, known, own, flagged);
      }

  own_event :
      (b : Bool)
      → key_of event ≡ key
      → e.has_client ≡ true
      → IsKnown key e b
      → Follows key b (process_event codec e event response now later)
  own_event b own client known = elim (Bool-cases (is_unnamed (until_nul event.pod_name))) [
    | inl unnamed ↦ rw (unnamed_event unnamed) (others-Follows e e [] tt known (λ flagged. flagged))
    | inr named ↦ named_event b named own client known
  ]

  pub process_event-Follows :
      (b : Bool)
      → e.has_client ≡ true
      → IsKnown key e b
      → Follows key b (process_event codec e event response now later)
  process_event-Follows b client known = elim (Bool-cases (key_of event == key)) [
    | inl own ↦ own_event b ((==_iff (key_of event) key).0 own) client known
    | inr other ↦
        other_event b (λ same. ground (arith, ==_iff (key_of event) key, same, other)) known
  ]
