-- ===== src/Operator/Startup.antt =====
-- The operator's servers without HTTP/2, and the order of its start.
use compute_sentry.Prelude.{
  Bool, true, false, not, ◌&&◌, ◌||◌, arith, Option, none, some, String, List, [], ◌∷◌, ◌++◌, ◌≡◌,
  refl, All, if◌then◌else◌, Bool-cases, inl, inr, ◌==◌, string_eq, exists,
}
use compute_sentry.Operator.{
  Options, disable_http2, tls_opts_of, configured, webhook_options, metrics_options, Step, steps_of,
  perform, run_main, get_config, new_manager, index_node_name, policy_controller, new_clientset,
  health_controller, policy_webhook, pod_mutator, healthz_check, readyz_check, start_manager,
}

-- Unless the flag enables it, neither the webhook server nor the metrics server offers HTTP/2, whatever
-- protocols its TLS configuration lists before; with the flag both are left as they are.
pub http2_lem :
    (options : Options) (next_protos : List String)
    → (configured (webhook_options options).tls_opts next_protos
        ≡ (if options.enable_http2 then next_protos else "http/1.1" ∷ []))
      × (configured (metrics_options options).tls_opts next_protos
          ≡ (if options.enable_http2 then next_protos else "http/1.1" ∷ []))
unfolding webhook_options metrics_options tls_opts_of configured disable_http2
http2_lem options next_protos = elim (Bool-cases options.enable_http2) [
  | inl e ↦ rw e (refl, refl)
  | inr e ↦ rw e (refl, refl)
]

-- The runs of a list of steps: all of them succeed, or those before one that fails.
pub data Runs (succeeds : Step → Bool) : List Step → List Step × Option Step → Type 0 where
  completed :
      {steps : List Step} → All (λ s. succeeds s ≡ true) steps → Runs succeeds steps (steps, none)
  stopped :
      {performed : List Step} (step : Step) (later : List Step)
      → All (λ s. succeeds s ≡ true) performed
      → succeeds step ≡ false
      → Runs succeeds (performed ++ step ∷ later) (performed, some step)

abbrev pub is_pod_mutator : Step → Bool
is_pod_mutator pod_mutator = true
is_pod_mutator _ = false

abbrev pub is_start_manager : Step → Bool
is_start_manager start_manager = true
is_start_manager _ = false

module _ (succeeds : Step → Bool) where
  one_more :
      (step : Step) {steps : List Step} {r : List Step × Option Step}
      → succeeds step ≡ true
      → Runs succeeds steps r
      → Runs succeeds (step ∷ steps) (step ∷ r.0, r.1)
  one_more step h (completed all) = completed (h, all)
  one_more step h (stopped failing later before bad) = stopped failing later (h, before) bad

  perform-Runs : (steps : List Step) → Runs succeeds steps (perform succeeds steps)
  unfolding perform
  perform-Runs [] = completed tt
  perform-Runs (step ∷ steps) = elim (Bool-cases (succeeds step)) [
    | inl e ↦ rw e (one_more step e (perform-Runs steps))
    | inr e ↦ rw e (stopped step steps tt e)
  ]

  -- The operator performs its steps in order up to the first that fails; it starts the manager exactly if
  -- the cluster's configuration, the manager, the index of the pods' nodes, both controllers, the clientset
  -- and both health checks were set up and, unless ENABLE_WEBHOOKS is "false", the policy webhook was, and
  -- the start succeeds; and among what it has done then is the registration of the pod webhook, exactly if
  -- ENABLE_WEBHOOKS is not "false". That registration cannot fail.
  pub run_main_lem :
      (enable_webhooks : String)
      → succeeds pod_mutator ≡ true
      → let starts = exists is_start_manager (run_main succeeds enable_webhooks).0 in
        Runs succeeds (steps_of enable_webhooks) (run_main succeeds enable_webhooks)
        × (starts ≡ (
            succeeds get_config
            && succeeds new_manager
            && succeeds index_node_name
            && succeeds policy_controller
            && succeeds new_clientset
            && succeeds health_controller
            && (enable_webhooks == "false" || succeeds policy_webhook)
            && succeeds healthz_check
            && succeeds readyz_check
            && succeeds start_manager))
        × ((starts && exists is_pod_mutator (run_main succeeds enable_webhooks).0)
            ≡ (starts && not (enable_webhooks == "false")))
  unfolding run_main steps_of exists perform
  run_main_lem enable_webhooks registered = (
    perform-Runs (steps_of enable_webhooks),
    ground (arith, registered),
    ground (arith, registered),
  )
