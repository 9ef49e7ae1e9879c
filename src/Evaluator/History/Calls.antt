-- ===== src/Evaluator/History/Calls.antt =====
-- The calls for a pod, where the evaluator takes any number of events.
use compute_sentry.Prelude.{
  Bool, true, false, some, String, List, [], ◌∷◌, ◌++◌, map, All, ◌≡◌, ◌≢◌, ◌∙◌, refl, ap, arith,
  not, ◌&&◌, ◌||◌, ◌==◌, ==_iff, Bool-cases, inl, inr, if◌then◌else◌,
}
use compute_sentry.Prelude.Text.{Text, text_eq, join_slash, until_nul}
use compute_sentry.Prelude.Map
use compute_sentry.Api.{GovernanceConfig}
use compute_sentry.Api.Codec.{Codec}
use compute_sentry.Collector.{MetricEvent}
use compute_sentry.Evaluator.{
  HealthEvaluator, PatchCall, times_of, flag_of, is_unnamed, mark_pod_status, process_event, run,
}
use compute_sentry.Evaluator.Clients.{has_client-process_event}
use compute_sentry.Evaluator.Marking.{key_of, process_event-SameAt, patches-process_event}
use compute_sentry.Evaluator.Recovery.{key_of_call}
use compute_sentry.Evaluator.Silence.{call-ne}
use compute_sentry.Evaluator.Alternation.Events.{unnamed_event}
use compute_sentry.Evaluator.History.{Taken, is_condemned, result}
use compute_sentry.Evaluator.History.Runs.{
  receive_of, result-Advances, step-receive, process_event-keeps,
}

-- What the calls say of a pod, in their order.
unfoldable pub statuses_for : Text → List PatchCall → List String
statuses_for key [] = []
statuses_for key (call ∷ calls) =
    let rest = statuses_for key calls in
    if key_of_call call == key then call.status ∷ rest else rest

module _ (key : Text) where
  statuses_for-append :
      (xs ys : List PatchCall)
      → statuses_for key (xs ++ ys) ≡ statuses_for key xs ++ statuses_for key ys
  unfolding statuses_for
  statuses_for-append [] ys = refl
  statuses_for-append (x ∷ xs) ys = ground (arith, statuses_for-append xs ys)

  statuses_for_others :
      (calls : List PatchCall)
      → All (λ call. key_of_call call ≢ key) calls
      → statuses_for key calls ≡ []
  unfolding statuses_for
  statuses_for_others [] h = refl
  statuses_for_others (call ∷ calls) h =
      ground (arith, ==_iff (key_of_call call) key, h.0, statuses_for_others calls h.1)

  status_of_call :
      (f : HealthEvaluator) (name namespace : Text)
      → f.has_client ≡ true
      → is_unnamed name ≡ false
      → join_slash namespace name ≡ key
      → statuses_for key (mark_pod_status f name namespace "unhealthy") ≡ "unhealthy" ∷ []
  unfolding mark_pod_status statuses_for
  status_of_call f name namespace client named same =
      ground (arith, ==_iff (join_slash namespace name) key)

  module _ (codec : Codec) (e : HealthEvaluator) (taken : Taken) where
    abbrev calls : List PatchCall
    calls = (process_event codec e taken.event taken.response taken.now taken.later).1

    abbrev turned_on : Bool
    turned_on =
        not (flag_of key e.unhealthy_pods) && flag_of key (result codec e taken).unhealthy_pods

    own_statuses :
        key_of taken.event ≡ key
        → e.has_client ≡ true
        → statuses_for key calls ≡ (if turned_on then "unhealthy" ∷ [] else [])
    unfolding statuses_for
    own_statuses own client = elim (Bool-cases (is_unnamed (until_nul taken.event.pod_name))) [
      | inl unnamed ↦ ground (
        arith,
        unnamed_event key codec e taken.event taken.response taken.now taken.later unnamed,
      )
      | inr named ↦ ground (
        arith,
        own,
        patches-process_event codec e taken.event taken.response taken.now taken.later,
        status_of_call (result codec e taken) (until_nul taken.event.pod_name)
            (until_nul taken.event.pod_namespace)
            (has_client-process_event codec e taken.event taken.response taken.now taken.later
              ∙ client)
            named own,
      )
    ]

    other_statuses :
        key_of taken.event ≢ key
        → statuses_for key calls ≡ (if turned_on then "unhealthy" ∷ [] else [])
    unfolding flag_of
    other_statuses other =
        let same =
          process_event-SameAt key codec e taken.event taken.response taken.now taken.later other in
        let uncalled : All (λ call. key_of_call call ≢ key) calls =
          rw (patches-process_event codec e taken.event taken.response taken.now taken.later) (
            call-ne key (result codec e taken) (until_nul taken.event.pod_name)
              (until_nul taken.event.pod_namespace) _ other) in
        statuses_for_others calls uncalled ∙ ground (arith, same.unhealthy)

    event_statuses :
        e.has_client ≡ true → statuses_for key calls ≡ (if turned_on then "unhealthy" ∷ [] else [])
    event_statuses client = elim (Bool-cases (key_of taken.event == key)) [
      | inl own ↦ own_statuses ((==_iff (key_of taken.event) key).0 own) client
      | inr other ↦
          other_statuses (λ same. ground (arith, ==_iff (key_of taken.event) key, same, other))
    ]

  -- Two turns, one after the other.
  two_turns :
      (flag flag' condemned violated : Bool)
      → flag' ≡ (flag || violated)
      → ◌++◌ {A = String}
          (if not flag && flag' then "unhealthy" ∷ [] else [])
          (if not flag' && condemned then "unhealthy" ∷ [] else [])
        ≡ (if not flag && (violated || condemned) then "unhealthy" ∷ [] else [])
  two_turns flag flag' condemned violated h = ground (arith, h)

  -- The cluster hears of a pod once: while a running evaluator with a client takes any number of events
  -- of any pods from its channel, with a configuration of the pod in its cache, it makes one call for
  -- the pod, which says "unhealthy", if the pod was not flagged before and, at some slow all-reduce of
  -- the pod, more of its violations than the configuration allows were within the configured window;
  -- and no call for the pod otherwise.
  pub statuses_for-run :
      (codec : Codec) (config : GovernanceConfig) (trace : List Taken) (behind : List MetricEvent)
      (e : HealthEvaluator)
      → e.stopped ≡ false
      → e.has_client ≡ true
      → e.metrics_chan ≡ map (λ taken. taken.event) trace ++ behind
      → Map.lookup key e.pod_configs ≡ some config
      → statuses_for key (run codec (map receive_of trace) e).1 ≡ (
          if not (flag_of key e.unhealthy_pods)
            && is_condemned config key (times_of key e.violation_times) trace
          then "unhealthy" ∷ []
          else [])
  unfolding run is_condemned statuses_for
  statuses_for-run codec config [] behind e on client chan cached = ground arith
  statuses_for-run codec config (taken ∷ trace) behind e on client chan cached =
      let e' : HealthEvaluator = record e { metrics_chan = map (λ t. t.event) trace ++ behind } in
      let keeps = process_event-keeps codec config e' taken in
      let first = result-Advances codec config key e' taken cached in
      let rest =
        statuses_for-run codec config trace behind (result codec e' taken) (keeps.1 ∙ on)
          (has_client-process_event codec e' taken.event taken.response taken.now taken.later
            ∙ client)
          keeps.0 first.cached in
      let later : HealthEvaluator → List PatchCall =
        λ (f : HealthEvaluator). (run codec (map receive_of trace) f).1 in
      ap (λ (r : HealthEvaluator × List PatchCall). statuses_for key (r.1 ++ later r.0))
        (step-receive codec config e taken _ on chan)
      ∙ statuses_for-append (calls codec e' taken) (later (result codec e' taken))
      ∙ rw (event_statuses codec e' taken client, rest, first.times)
          (two_turns (flag_of key e.unhealthy_pods)
            (flag_of key (result codec e' taken).unhealthy_pods) _ _ first.flag)
