-- ===== src/Evaluator/Clients.antt =====
-- No input of the loops changes the client.
use compute_sentry.Prelude.{
  Option, none, some, List, [], ◌∷◌, ◌≡◌, ◌∙◌, refl, arith, maybe_ind, if_ind,
}
use compute_sentry.Prelude.Int.{ℤ}
use compute_sentry.Prelude.Text.{Text, until_nul, split_slash}
use compute_sentry.Prelude.Map.{Map}
use compute_sentry.Api.Codec.{Codec}
use compute_sentry.Objects.{Pod}
use compute_sentry.Collector.{MetricEvent}
use compute_sentry.Evaluator.{
  HealthEvaluator, PatchCall, annotated_config, cache, cache_all, fetch_and_cache_pod_config,
  sync_node_pods, offer, stop, Limits, limits_of, add_violation, evaluate, look_up, process_named,
  process_event, forget, forget_stale, sweep_stale, recover_parts, recover_pods, cleaned,
  check_recovery_and_cleanup, Input, send, receive, tick, sync, close, take_event, react, idle,
  step,
}

pub has_client-evaluate :
    (e : HealthEvaluator) (limits : Limits) (namespace name : Text) (duration_us now later : ℤ)
    → (evaluate e limits namespace name duration_us now later).0.has_client ≡ e.has_client
unfolding evaluate add_violation
has_client-evaluate e limits namespace name duration_us now later = ground arith

has_client-look_up :
    (codec : Codec) (e : HealthEvaluator) (namespace name : Text) (response : Option Pod) (now : ℤ)
    → (look_up codec e namespace name response now).0.has_client ≡ e.has_client
unfolding look_up fetch_and_cache_pod_config cache
has_client-look_up codec e namespace name none now = ground arith
has_client-look_up codec e namespace name (some pod) now = ground arith

pub has_client-process_event :
    (codec : Codec) (e : HealthEvaluator) (event : MetricEvent) (response : Option Pod)
    (now later : ℤ)
    → (process_event codec e event response now later).0.has_client ≡ e.has_client
unfolding process_event process_named
has_client-process_event codec e event response now later =
    let namespace = until_nul event.pod_namespace in
    let name = until_nul event.pod_name in
    let found = look_up codec e namespace name response now in
    ground (
      arith,
      has_client-look_up codec e namespace name response now,
      has_client-evaluate found.0 (limits_of found.0 found.1) namespace name event.duration_us now
          later,
    )

pub has_client-sweep_stale :
    (now : ℤ) (entries : Map Text ℤ) (e : HealthEvaluator)
    → (sweep_stale now entries e).has_client ≡ e.has_client
unfolding sweep_stale forget_stale forget
has_client-sweep_stale now [] e = refl
has_client-sweep_stale now ((key, last_seen) ∷ entries) e =
    ground (arith, has_client-sweep_stale now entries (forget_stale now key last_seen e))

pub has_client-recover_parts :
    (e : HealthEvaluator) (key : Text) (parts : List Text)
    → (recover_parts e key parts).0.has_client ≡ e.has_client
unfolding recover_parts
has_client-recover_parts e key (namespace ∷ name ∷ []) = refl
has_client-recover_parts e key _ = refl

has_client-recover_pods :
    (keys : List Text) (e : HealthEvaluator) → (recover_pods e keys).0.has_client ≡ e.has_client
unfolding recover_pods
has_client-recover_pods [] e = refl
has_client-recover_pods (key ∷ keys) e =
    has_client-recover_pods keys (recover_parts e key (split_slash key)).0
    ∙ has_client-recover_parts e key (split_slash key)

has_client-cache_all :
    (codec : Codec) (pods : List Pod) (e : HealthEvaluator)
    → (cache_all codec pods e).has_client ≡ e.has_client
unfolding cache_all cache
has_client-cache_all codec [] e = refl
has_client-cache_all codec (pod ∷ pods) e =
    has_client-cache_all codec pods _
    ∙ maybe_ind (λ (e' : HealthEvaluator). e'.has_client ≡ e.has_client)
        (annotated_config codec pod) refl (λ c. refl)

module _ (codec : Codec) where
  has_client-take :
      (events : List MetricEvent) (response : Option Pod) (now later : ℤ) (e : HealthEvaluator)
      → (take_event codec events response now later e).0.has_client ≡ e.has_client
  unfolding take_event
  has_client-take [] response now later e = refl
  has_client-take (event ∷ events) response now later e =
      has_client-process_event codec _ event response now later

  has_client-react :
      (input : Input) (e : HealthEvaluator) → (react codec input e).0.has_client ≡ e.has_client
  unfolding react offer stop sync_node_pods check_recovery_and_cleanup cleaned
  has_client-react (send event) e = ground arith
  has_client-react (receive response now later) e =
      has_client-take e.metrics_chan response now later e
  has_client-react (tick now) e =
      has_client-recover_pods _ (cleaned e now) ∙ has_client-sweep_stale now e.last_seen_times _
  has_client-react (sync none) e = refl
  has_client-react (sync (some pods)) e = ground (arith, has_client-cache_all codec pods e)
  has_client-react close e = refl

  has_client-idle :
      (input : Input) (e : HealthEvaluator) → (idle input e).0.has_client ≡ e.has_client
  unfolding idle offer
  has_client-idle (send event) e = ground arith
  has_client-idle (receive response now later) e = refl
  has_client-idle (tick now) e = refl
  has_client-idle (sync response) e = refl
  has_client-idle close e = refl

  pub has_client-step :
      (input : Input) (e : HealthEvaluator) → (step codec input e).0.has_client ≡ e.has_client
  unfolding step
  has_client-step input e =
      if_ind (λ (r : HealthEvaluator × List PatchCall). r.0.has_client ≡ e.has_client) e.stopped
        (has_client-idle input e) (has_client-react input e)
