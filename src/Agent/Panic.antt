-- ===== src/Agent/Panic.antt =====
-- Events that end the agent.
use compute_sentry.Prelude.{
  Bool, true, false, not, none, List, [], ◌∷◌, ◌++◌, ◌≡◌, refl, arith, exists, Option-cases, inl,
  inr,
}
use compute_sentry.Prelude.Text.{Text, text_beq}
use compute_sentry.Collector.{MetricEvent}
use compute_sentry.Exporter.{Exporter, trim_right_nul, unless_empty, labels_of, record_event}
use compute_sentry.Exporter.Utf8.{is_utf8, is_utf8_from}
use compute_sentry.Agent.{Agent, forward_event, forward}

-- The Prometheus client takes no label value that is not UTF-8.
abbrev pub RefusesBytes : (List Text → Bool) → Type 0
RefusesBytes accepts =
    (values : List Text) → exists (λ v. not (is_utf8 v)) values ≡ true → accepts values ≡ false

unless_empty-is_utf8 : (model : Text) → is_utf8 model ≡ false → is_utf8 (unless_empty model) ≡ false
unfolding unless_empty text_beq is_utf8_from
unless_empty-is_utf8 [] h = cc
unless_empty-is_utf8 (c ∷ model) h = h

-- The runtime GPU model is the last label.
bad_label :
    (e : Exporter) (event : MetricEvent)
    → is_utf8 (trim_right_nul event.gpu_model) ≡ false
    → exists (λ v. not (is_utf8 v)) (labels_of e event) ≡ true
unfolding exists labels_of
bad_label e event h = ground (arith, unless_empty-is_utf8 (trim_right_nul event.gpu_model) h)

module _ (accepts : List Text → Bool) (refuses : RefusesBytes accepts) where
  refused :
      (e : Exporter) (event : MetricEvent)
      → is_utf8 (trim_right_nul event.gpu_model) ≡ false
      → accepts (labels_of e event) ≡ false
  refused e event h = refuses (labels_of e event) (bad_label e event h)

  -- One event whose GPU model, without the NULs behind it, is not UTF-8 ends the main loop by a panic,
  -- wherever it stands among the events, if the Prometheus client refuses label values that are not UTF-8.
  pub forward-panics :
      (before : List MetricEvent) (event : MetricEvent) (behind : List MetricEvent) (agent : Agent)
      → is_utf8 (trim_right_nul event.gpu_model) ≡ false
      → forward accepts (before ++ event ∷ behind) agent ≡ none
  unfolding forward forward_event record_event
  forward-panics [] event behind agent h = rw (refused agent.exporter event h) refl
  forward-panics (other ∷ before) event behind agent h =
      elim (Option-cases (forward_event accepts other agent)) [
        | inl e ↦ rw e refl
        | inr (next, e) ↦ rw e (forward-panics before event behind next h)
      ]
