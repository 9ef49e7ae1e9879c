-- ===== src/Evaluator/Alternation/Runs.antt =====
-- A pod's calls in a run of the evaluator.
use compute_sentry.Prelude.{
  Bool, true, Option, none, some, List, [], ◌∷◌, ◌≡◌, ◌∙◌, refl, arith, maybe_ind, if_ind,
}
use compute_sentry.Prelude.Int.{ℤ}
use compute_sentry.Prelude.Text.{Text}
use compute_sentry.Api.Codec.{Codec}
use compute_sentry.Objects.{Pod}
use compute_sentry.Collector.{MetricEvent}
use compute_sentry.Evaluator.{
  HealthEvaluator, flag_of, annotated_config, cache, cache_all, sync_node_pods, offer, stop, Input,
  send, receive, tick, sync, close, take_event, react, idle, step, run,
}
use compute_sentry.Evaluator.Clients.{has_client-step}
use compute_sentry.Evaluator.Invariant.{IsWellFormed}
use compute_sentry.Evaluator.Invariant.Runs.{step-IsWellFormed}
use compute_sentry.Evaluator.Alternation.{
  told, all_due, IsKnown, Follows, Follows-append, others-Follows,
}
use compute_sentry.Evaluator.Alternation.Events.{process_event-Follows}
use compute_sentry.Evaluator.Alternation.Sweeps.{check_recovery_and_cleanup-Follows}

module _ (codec : Codec) (key : Text) where
  unhealthy_pods-cache_all :
      (pods : List Pod) (e : HealthEvaluator)
      → (cache_all codec pods e).unhealthy_pods ≡ e.unhealthy_pods
  unfolding cache_all cache
  unhealthy_pods-cache_all [] e = refl
  unhealthy_pods-cache_all (pod ∷ pods) e =
      unhealthy_pods-cache_all pods _
      ∙ maybe_ind (λ (f : HealthEvaluator). f.unhealthy_pods ≡ e.unhealthy_pods)
          (annotated_config codec pod) refl (λ c. refl)

  -- An input that makes no call and leaves the flags.
  uncalled-Follows :
      (e f : HealthEvaluator) (b : Bool)
      → f.unhealthy_pods ≡ e.unhealthy_pods
      → IsKnown key e b
      → Follows key b (f, [])
  uncalled-Follows e f b same known =
      others-Follows e f [] tt known (λ flagged. ground (arith, same, flagged))

  offer-Follows :
      (event : MetricEvent) (e : HealthEvaluator) (b : Bool)
      → IsKnown key e b
      → Follows key b (offer event e, [])
  unfolding offer
  offer-Follows event e b known = uncalled-Follows e _ b (ground arith) known

  take-Follows :
      (events : List MetricEvent) (response : Option Pod) (now later : ℤ) (e : HealthEvaluator)
      (b : Bool)
      → e.has_client ≡ true
      → IsKnown key e b
      → Follows key b (take_event codec events response now later e)
  unfolding take_event
  take-Follows [] response now later e b client known = uncalled-Follows e e b refl known
  take-Follows (event ∷ events) response now later e b client known =
      process_event-Follows key codec (record e { metrics_chan = events }) event response now later
        b client known

  react-Follows :
      (input : Input) (e : HealthEvaluator) (b : Bool)
      → IsWellFormed e
      → e.has_client ≡ true
      → IsKnown key e b
      → Follows key b (react codec input e)
  unfolding react stop sync_node_pods
  react-Follows (send event) e b w client known = offer-Follows event e b known
  react-Follows (receive response now later) e b w client known =
      take-Follows e.metrics_chan response now later e b client known
  react-Follows (tick now) e b w client known =
      check_recovery_and_cleanup-Follows key e now b w known
  react-Follows (sync none) e b w client known = uncalled-Follows e e b refl known
  react-Follows (sync (some pods)) e b w client known =
      uncalled-Follows e _ b (ground (arith, unhealthy_pods-cache_all pods e)) known
  react-Follows close e b w client known = uncalled-Follows e _ b refl known

  idle-Follows :
      (input : Input) (e : HealthEvaluator) (b : Bool)
      → IsKnown key e b
      → Follows key b (idle input e)
  unfolding idle
  idle-Follows (send event) e b known = offer-Follows event e b known
  idle-Follows _ e b known = uncalled-Follows e e b refl known

  step-Follows :
      (input : Input) (e : HealthEvaluator) (b : Bool)
      → IsWellFormed e
      → e.has_client ≡ true
      → IsKnown key e b
      → Follows key b (step codec input e)
  unfolding step
  step-Follows input e b w client known =
      if_ind (Follows key b) e.stopped (idle-Follows input e b known)
        (react-Follows input e b w client known)

  run-Follows :
      (inputs : List Input) (e : HealthEvaluator) (b : Bool)
      → IsWellFormed e
      → e.has_client ≡ true
      → IsKnown key e b
      → Follows key b (run codec inputs e)
  unfolding run
  run-Follows [] e b w client known = uncalled-Follows e e b refl known
  run-Follows (input ∷ inputs) e b w client known =
      let first = step-Follows input e b w client known in
      Follows-append first (
        run-Follows inputs (step codec input e).0 (told key b (step codec input e).1)
          (step-IsWellFormed codec input e w) (has_client-step codec input e ∙ client) first.known)

  -- No pod is reported "healthy" that the cluster does not take for unhealthy: in any sequence of
  -- sends, events, sweeps, syncs and stops, each call for the pod that does not say "unhealthy" comes
  -- when the last call for it, or else what the cluster was told before the run, said "unhealthy".
  -- The evaluator is well-formed and has a client, and where it has the pod's flag at the start, the
  -- cluster was told so.
  pub all_due-run :
      (inputs : List Input) (e : HealthEvaluator) (reported : Bool)
      → IsWellFormed e
      → e.has_client ≡ true
      → (flag_of key e.unhealthy_pods ≡ true → reported ≡ true)
      → all_due key reported (run codec inputs e).1 ≡ true
  all_due-run inputs e reported w client known = (run-Follows inputs e reported w client known).due
