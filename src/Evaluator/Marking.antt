-- ===== src/Evaluator/Marking.antt =====
-- `processEvent`: the pod's flag, the calls, and the other pods.
use compute_sentry.Prelude.{
  Bool, true, Option, none, some, List, [], ◌∷◌, ◌++◌, ◌≡◌, ◌≢◌, refl, ◌&&◌, ◌||◌, not, arith,
  if◌then◌else◌, ==_iff, tally, Option-cases, inl, inr,
}
use compute_sentry.Prelude.Int.{ℤ, pos, ltb_ℤ, int_beq}
use compute_sentry.Prelude.Text.{Text, join_slash, until_nul, text_eq}
use compute_sentry.Prelude.Map
use compute_sentry.Prelude.Map.{lookup-insert}
use compute_sentry.Api.{GovernanceConfig}
use compute_sentry.Api.Codec.{Codec}
use compute_sentry.Objects.{Pod}
use compute_sentry.Collector.{MetricEvent, nccl_all_reduce}
use compute_sentry.Evaluator.{
  HealthEvaluator, seconds, times_of, flag_of, annotated_config, mark_pod_status, is_unnamed, cache,
  fetch_and_cache_pod_config, Limits, limits_of, is_within, count_violations, add_violation,
  turns_unhealthy, evaluate, look_up, process_named, process_event,
}

-- The key under which an event's pod is kept.
abbrev pub key_of : MetricEvent → Text
key_of event = join_slash (until_nul event.pod_namespace) (until_nul event.pod_name)

-- Two states agree on everything they hold of one pod.
pub record SameAt (key : Text) (e e' : HealthEvaluator) : Type 0 where
  pub violations : Map.lookup key e'.violation_times ≡ Map.lookup key e.violation_times
  pub last_seen : Map.lookup key e'.last_seen_times ≡ Map.lookup key e.last_seen_times
  pub unhealthy : Map.lookup key e'.unhealthy_pods ≡ Map.lookup key e.unhealthy_pods
  pub config : Map.lookup key e'.pod_configs ≡ Map.lookup key e.pod_configs

module _ (j : Text) where
  SameAt-trans : {e f g : HealthEvaluator} → SameAt j e f → SameAt j f g → SameAt j e g
  SameAt-trans h k = ground arith

  cache-SameAt :
      (e : HealthEvaluator) (namespace name : Text) (config : GovernanceConfig)
      → join_slash namespace name ≢ j
      → SameAt j e (cache e namespace name config)
  unfolding cache
  cache-SameAt e namespace name config h = record {
    violations = refl;
    last_seen = refl;
    unhealthy = refl;
    config = ground (
      arith,
      lookup-insert (join_slash namespace name) j config e.pod_configs,
      ==_iff (join_slash namespace name) j,
    );
  }

  fetch-SameAt :
      (codec : Codec) (e : HealthEvaluator) (namespace name : Text) (response : Option Pod)
      → join_slash namespace name ≢ j
      → SameAt j e (fetch_and_cache_pod_config codec e namespace name response).0
  unfolding fetch_and_cache_pod_config
  fetch-SameAt codec e namespace name none h = ground arith
  fetch-SameAt codec e namespace name (some pod) h =
      elim (Option-cases (annotated_config codec pod)) [
        | inl missing ↦ ground arith
        | inr (c, found) ↦ ground (arith, cache-SameAt e namespace name c h)
      ]

  look_up-SameAt :
      (codec : Codec) (e : HealthEvaluator) (namespace name : Text) (response : Option Pod)
      (now : ℤ)
      → join_slash namespace name ≢ j
      → SameAt j e (look_up codec e namespace name response now).0
  unfolding look_up
  look_up-SameAt codec e namespace name response now h =
      let key = join_slash namespace name in
      let seen = record e { last_seen_times = Map.insert key now e.last_seen_times } in
      let marked : SameAt j e seen =
        ground (arith, lookup-insert key j now e.last_seen_times, ==_iff key j) in
      ground (arith, SameAt-trans marked (fetch-SameAt codec seen namespace name response h))

  evaluate-SameAt :
      (e : HealthEvaluator) (limits : Limits) (namespace name : Text) (duration_us now later : ℤ)
      → join_slash namespace name ≢ j
      → SameAt j e (evaluate e limits namespace name duration_us now later).0
  unfolding evaluate add_violation
  evaluate-SameAt e limits namespace name duration_us now later h =
      let key = join_slash namespace name in
      ground (
        arith,
        ==_iff key j,
        lookup-insert key j true e.unhealthy_pods,
        lookup-insert key j (times_of key e.violation_times ++ now ∷ []) e.violation_times,
      )

  -- An event changes nothing that is held of any pod but its own.
  pub process_event-SameAt :
      (codec : Codec) (e : HealthEvaluator) (event : MetricEvent) (response : Option Pod)
      (now later : ℤ)
      → key_of event ≢ j
      → SameAt j e (process_event codec e event response now later).0
  unfolding process_event process_named
  process_event-SameAt codec e event response now later h =
      let namespace = until_nul event.pod_namespace in
      let name = until_nul event.pod_name in
      let found = look_up codec e namespace name response now in
      ground (
        arith,
        SameAt-trans (look_up-SameAt codec e namespace name response now h) (
            evaluate-SameAt found.0 (limits_of found.0 found.1) namespace name event.duration_us now
              later h),
      )

unhealthy_pods-look_up :
    (codec : Codec) (e : HealthEvaluator) (namespace name : Text) (response : Option Pod) (now : ℤ)
    → (look_up codec e namespace name response now).0.unhealthy_pods ≡ e.unhealthy_pods
unfolding look_up fetch_and_cache_pod_config cache
unhealthy_pods-look_up codec e namespace name none now = ground arith
unhealthy_pods-look_up codec e namespace name (some pod) now = ground arith

patches-evaluate :
    (e : HealthEvaluator) (limits : Limits) (namespace name : Text) (duration_us now later : ℤ)
    → (evaluate e limits namespace name duration_us now later).1 ≡ (
        if not (flag_of (join_slash namespace name) e.unhealthy_pods)
          && flag_of
              (join_slash namespace name)
              (evaluate e limits namespace name duration_us now later).0.unhealthy_pods
        then mark_pod_status
            (evaluate e limits namespace name duration_us now later).0
            name
            namespace
            "unhealthy"
        else [])
unfolding evaluate turns_unhealthy add_violation flag_of mark_pod_status
patches-evaluate e limits namespace name duration_us now later =
    let key = join_slash namespace name in
    ground (arith, ==_iff key key, lookup-insert key key true e.unhealthy_pods)

-- Whether the event is one that is evaluated at all: an all-reduce of a pod with a name.
abbrev pub is_evaluated : MetricEvent → Bool
is_evaluated event =
    int_beq event.type nccl_all_reduce && not (is_unnamed (until_nul event.pod_name))

-- The violations that count for the event: those on record, and the event itself.
abbrev pub violations_with : HealthEvaluator → MetricEvent → ℤ → List ℤ
violations_with e event now = times_of (key_of event) e.violation_times ++ now ∷ []

module _ (codec : Codec) (e : HealthEvaluator) (event : MetricEvent) (response : Option Pod)
    (now later : ℤ) where
  abbrev pub after : HealthEvaluator
  after = (process_event codec e event response now later).0

  -- The cluster is told of an event exactly where the event turns its pod's flag on: it gets one
  -- "unhealthy" patch for that pod then, and no call otherwise.
  pub patches-process_event : (process_event codec e event response now later).1 ≡ (
      if not (flag_of (key_of event) e.unhealthy_pods)
        && flag_of (key_of event) after.unhealthy_pods
      then mark_pod_status after
          (until_nul event.pod_name)
          (until_nul event.pod_namespace)
          "unhealthy"
      else [])
  unfolding process_event process_named
  patches-process_event =
      let namespace = until_nul event.pod_namespace in
      let name = until_nul event.pod_name in
      let found = look_up codec e namespace name response now in
      ground (
        arith,
        unhealthy_pods-look_up codec e namespace name response now,
        patches-evaluate found.0 (limits_of found.0 found.1) namespace name event.duration_us now
            later,
      )

  -- With a cached configuration, a pod is flagged after an event exactly if it was before, or the
  -- event is an evaluated one, slower than the configured latency, and more than the configured
  -- number of violations lie within the configured window, the event's included.
  pub flag-process_event :
      (config : GovernanceConfig)
      → Map.lookup (key_of event) e.pod_configs ≡ some config
      → flag_of (key_of event) after.unhealthy_pods ≡ (
          flag_of (key_of event) e.unhealthy_pods
          || (is_evaluated event
              && ltb_ℤ config.thresholds.max_nccl_latency_us event.duration_us
              && ltb_ℤ config.eval_config.error_count_limit (
                  pos (
                    tally
                      (is_within later (seconds config.eval_config.window_size))
                      (violations_with e event now)))))
  unfolding process_event process_named look_up evaluate turns_unhealthy count_violations limits_of
      add_violation flag_of times_of
  flag-process_event config cached =
      let key = key_of event in
      ground (
        arith,
        ==_iff key key,
        lookup-insert key key true e.unhealthy_pods,
        lookup-insert key key (violations_with e event now) e.violation_times,
      )
