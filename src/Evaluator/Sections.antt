-- ===== src/Evaluator/Sections.antt =====
-- `processEvent` by its critical sections. It runs in the goroutine of `runLoop`, with the sweeps, so
-- only the syncs of `periodicSync` come between them.
use compute_sentry.Prelude.{
  Option, none, some, List, [], ◌∷◌, ◌≡◌, ◌∙◌, refl, sym, ap, arith, not, ◌||◌, maybe,
  if◌then◌else◌, Bool-cases, inl, inr, maybe_ind, if_ind,
}
use compute_sentry.Prelude.Int.{ℤ, int_beq}
use compute_sentry.Prelude.Text.{Text, text_eq, join_slash, until_nul}
use compute_sentry.Api.{GovernanceConfig}
use compute_sentry.Api.Codec.{Codec}
use compute_sentry.Objects.{Pod}
use compute_sentry.Collector.{MetricEvent, nccl_all_reduce}
use compute_sentry.Evaluator.{
  HealthEvaluator, PatchCall, is_unnamed, annotated_config, cache, cache_all,
  fetch_and_cache_pod_config, sync_node_pods, mark_pod_status, Limits, limits_of, count_violations,
  turns_unhealthy, add_violation, evaluate, see, look_up, process_named, process_event,
}

-- The syncs of one pause, by the responses of their List calls.
unfoldable pub syncs : Codec → List (Option (List Pod)) → HealthEvaluator → HealthEvaluator
syncs codec [] e = e
syncs codec (response ∷ responses) e = syncs codec responses (sync_node_pods codec e response)

-- `processEvent` with syncs between its first critical section and that of the fetch, and between this
-- and the last one; those of an event that is not evaluated come after it.
unfoldable pub process_amid :
    Codec
    → HealthEvaluator
    → MetricEvent
    → Option Pod
    → ℤ
    → ℤ
    → List (Option (List Pod))
    → List (Option (List Pod))
    → HealthEvaluator × List PatchCall
process_amid codec e event response now later early late =
    let name = until_nul event.pod_name in
    let namespace = until_nul event.pod_namespace in
    let seen = see e (join_slash namespace name) now in
    let paused = syncs codec early seen.0 in
    let found =
      maybe seen.1 (fetch_and_cache_pod_config codec paused namespace name response)
        (λ config. (paused, some config)) in
    if not (int_beq event.type nccl_all_reduce) || is_unnamed name
    then (syncs codec late (syncs codec early e), [])
    else evaluate (syncs codec late found.0) (limits_of found.0 found.1) namespace name
        event.duration_us now later

-- What is left of a state without the cached configurations.
abbrev pub unconfigured : HealthEvaluator → HealthEvaluator
unconfigured e = record e { pod_configs = [] }

module _ (codec : Codec) where
  unconfigured-cache_all :
      (pods : List Pod) (e : HealthEvaluator)
      → unconfigured (cache_all codec pods e) ≡ unconfigured e
  unfolding cache_all cache
  unconfigured-cache_all [] e = refl
  unconfigured-cache_all (pod ∷ pods) e =
      unconfigured-cache_all pods _
      ∙ maybe_ind (λ (f : HealthEvaluator). unconfigured f ≡ unconfigured e)
          (annotated_config codec pod) refl (λ c. refl)

  unconfigured-sync :
      (response : Option (List Pod)) (e : HealthEvaluator)
      → unconfigured (sync_node_pods codec e response) ≡ unconfigured e
  unfolding sync_node_pods
  unconfigured-sync none e = refl
  unconfigured-sync (some pods) e =
      if_ind (λ (f : HealthEvaluator). unconfigured f ≡ unconfigured e) _ refl
        (unconfigured-cache_all pods e)

  unconfigured-syncs :
      (responses : List (Option (List Pod))) (e : HealthEvaluator)
      → unconfigured (syncs codec responses e) ≡ unconfigured e
  unfolding syncs
  unconfigured-syncs [] e = refl
  unconfigured-syncs (response ∷ responses) e =
      unconfigured-syncs responses (sync_node_pods codec e response) ∙ unconfigured-sync response e

  -- A fetch looks at no cached configuration, and changes nothing else.
  fetched-unconfigured :
      (e : HealthEvaluator) (namespace name : Text) (response : Option Pod)
      → (unconfigured (fetch_and_cache_pod_config codec e namespace name response).0
          ≡ unconfigured e)
        × ((fetch_and_cache_pod_config codec e namespace name response).1
            ≡ (fetch_and_cache_pod_config codec (unconfigured e) namespace name response).1)
  unfolding fetch_and_cache_pod_config cache
  fetched-unconfigured e namespace name none = (refl, refl)
  fetched-unconfigured e namespace name (some pod) = ground arith

evaluate-unconfigured :
    (e : HealthEvaluator) (limits : Limits) (namespace name : Text) (duration_us now later : ℤ)
    → ((evaluate e limits namespace name duration_us now later).1
        ≡ (evaluate (unconfigured e) limits namespace name duration_us now later).1)
      × (unconfigured (evaluate e limits namespace name duration_us now later).0
          ≡ (evaluate (unconfigured e) limits namespace name duration_us now later).0)
unfolding evaluate add_violation turns_unhealthy count_violations mark_pod_status
evaluate-unconfigured e limits namespace name duration_us now later = ground arith

limits_of-unconfigured :
    (e : HealthEvaluator) (config : Option GovernanceConfig)
    → limits_of e config ≡ limits_of (unconfigured e) config
unfolding limits_of
limits_of-unconfigured e none = refl
limits_of-unconfigured e (some config) = refl

-- The same calls, and the same state but for the cached configurations.
abbrev pub IsSame : HealthEvaluator × List PatchCall → HealthEvaluator × List PatchCall → Type 0
IsSame r s = (r.1 ≡ s.1) × (unconfigured r.0 ≡ unconfigured s.0)

evaluated-IsSame :
    (f g h : HealthEvaluator) (c d : Option GovernanceConfig) (namespace name : Text)
    (duration_us now later : ℤ)
    → unconfigured f ≡ unconfigured h
    → unconfigured g ≡ unconfigured h
    → c ≡ d
    → IsSame
        (evaluate f (limits_of g c) namespace name duration_us now later)
        (evaluate h (limits_of h d) namespace name duration_us now later)
evaluated-IsSame f g h c d namespace name duration_us now later same_f same_g same_c =
    let left = evaluate-unconfigured f (limits_of g c) namespace name duration_us now later in
    let right = evaluate-unconfigured h (limits_of h d) namespace name duration_us now later in
    let limits : limits_of g c ≡ limits_of h d =
      limits_of-unconfigured g c
      ∙ ap (λ (u : HealthEvaluator). limits_of u c) same_g
      ∙ ap (limits_of (unconfigured h)) same_c
      ∙ sym (limits_of-unconfigured h d) in
    let middle : evaluate (unconfigured f) (limits_of g c) namespace name duration_us now later
        ≡ evaluate (unconfigured h) (limits_of h d) namespace name duration_us now later =
      ap (λ (u : HealthEvaluator). evaluate u (limits_of g c) namespace name duration_us now later)
        same_f
      ∙ ap (λ (l : Limits). evaluate (unconfigured h) l namespace name duration_us now later)
          limits in
    (
      left.0 ∙ ap (λ (r : HealthEvaluator × List PatchCall). r.1) middle ∙ sym right.0,
      left.1 ∙ ap (λ (r : HealthEvaluator × List PatchCall). r.0) middle ∙ sym right.1,
    )

module _ (codec : Codec) (e : HealthEvaluator) (event : MetricEvent) (response : Option Pod)
    (now later : ℤ) (early late : List (Option (List Pod))) where
  abbrev namespace : Text
  namespace = until_nul event.pod_namespace

  abbrev name : Text
  name = until_nul event.pod_name

  abbrev seen : HealthEvaluator × Option GovernanceConfig
  seen = see e (join_slash namespace name) now

  -- The configuration is the same, if it is looked up in the same state but for the cached ones.
  found_same :
      (cached : Option GovernanceConfig) (f g : HealthEvaluator)
      → unconfigured f ≡ unconfigured g
      → (unconfigured
            (maybe cached
              (fetch_and_cache_pod_config codec f namespace name response)
              (λ c. (f, some c))).0
          ≡ unconfigured
              (maybe cached
                (fetch_and_cache_pod_config codec g namespace name response)
                (λ c. (g, some c))).0)
        × ((maybe cached
              (fetch_and_cache_pod_config codec f namespace name response)
              (λ c. (f, some c))).1
            ≡ (maybe cached
                (fetch_and_cache_pod_config codec g namespace name response)
                (λ c. (g, some c))).1)
  found_same none f g h =
      let from_f = fetched-unconfigured codec f namespace name response in
      let from_g = fetched-unconfigured codec g namespace name response in
      (
        from_f.0 ∙ h ∙ sym from_g.0,
        from_f.1
            ∙ ap
                (λ (u : HealthEvaluator).
                  (fetch_and_cache_pod_config codec u namespace name response).1)
                h
            ∙ sym from_g.1,
      )
  found_same (some c) f g h = (h, refl)

  -- Syncs of the pods' configurations that land between the critical sections of `processEvent`, however
  -- many and whatever the API server answers, change nothing that the event does: it makes the same
  -- calls and leaves the same state as without them, but for the cached configurations.
  pub process_amid-IsSame :
      IsSame
        (process_amid codec e event response now later early late)
        (process_event codec e event response now later)
  unfolding process_amid process_event process_named look_up
  process_amid-IsSame =
      elim (Bool-cases (not (int_beq event.type nccl_all_reduce) || is_unnamed name)) [
        | inl off ↦
            rw off (refl, unconfigured-syncs codec late _ ∙ unconfigured-syncs codec early e)
        | inr on ↦
            let paused = syncs codec early seen.0 in
            let found =
              maybe seen.1 (fetch_and_cache_pod_config codec paused namespace name response)
                (λ c. (paused, some c)) in
            let alone = look_up codec e namespace name response now in
            let same = found_same seen.1 paused seen.0 (unconfigured-syncs codec early seen.0) in
            rw on (
              evaluated-IsSame (syncs codec late found.0) found.0 alone.0 found.1 alone.1 namespace
                name event.duration_us now later (unconfigured-syncs codec late found.0 ∙ same.0)
                same.0 same.1)
      ]
