-- ===== src/Mutator/Reinvocation.antt =====
-- A second admission of an injected pod: the webhook is registered for updates too.
use mathlib.Core.Path.{subst}
use compute_sentry.Prelude.{
  ap, ◌≤◌, Bool, true, false, Option, none, some, String, List, [], ◌∷◌, ◌++◌, ◌≡◌, refl, sym, ◌∙◌,
  arith, tally, maybe, ◌==◌, ==_iff, string_eq, if◌then◌else◌, Bool-cases, Option-cases, inl, inr,
}
use compute_sentry.Prelude.Map
use compute_sentry.Prelude.Map.{Map, lookup-insert}
use compute_sentry.Api.{GovernanceConfig, ComputeSentryPolicy}
use compute_sentry.Objects.{Volume, Pod, annotation}
use compute_sentry.Mutator.{
  inject_spec, annotate, annotate_config, inject, match_policy, should_inject, governance_of,
  inject_annotation, injected_annotation, governance_config_annotation, answer, mutate, handle,
}
use compute_sentry.Mutator.Volumes.{
  has_name, HasNamesOnce, injected_volumes, volumes-inject, tally-append, tally_of_absent,
}

lookup-annotations :
    (k : String) (pod : Pod) → Map.lookup k (maybe pod.annotations [] (λ m. m)) ≡ annotation k pod
unfolding annotation Map.lookup
lookup-annotations k pod = elim (Option-cases pod.annotations) [
  | inl h ↦ rw h refl
  | inr (m, h) ↦ rw h refl
]

pub annotation-annotate :
    (key k value : String) (pod : Pod)
    → annotation k (annotate key value pod) ≡ (if key == k then some value else annotation k pod)
unfolding annotation annotate
annotation-annotate key k value pod =
    rw (sym (lookup-annotations k pod))
      (lookup-insert key k value (maybe pod.annotations [] (λ m. m)))

one_each : tally (has_name "compute-sentry-uds") injected_volumes ≡ 1
unfolding tally
one_each = refl

tally_of_HasNamesOnce :
    (name : String) (vs : List Volume) → HasNamesOnce vs → tally (has_name name) vs ≤ 1
unfolding tally
tally_of_HasNamesOnce name [] h = omega arith
tally_of_HasNamesOnce name (v ∷ vs) h = elim (Bool-cases (v.name == name)) [
  | inl e ↦
      rw (e, tally_of_absent (has_name name) vs (rw (sym ((==_iff v.name name).0 e)) h.0))
        (omega arith)
  | inr e ↦ rw e (tally_of_HasNamesOnce name vs h.1)
]

module _ (marshal : GovernanceConfig → Option String) (config : Option GovernanceConfig) where
  labels-annotate_config :
      (o : Option GovernanceConfig) (pod : Pod)
      → (annotate_config marshal o pod).labels ≡ pod.labels
  unfolding annotate_config annotate
  labels-annotate_config none pod = refl
  labels-annotate_config (some c) pod = ground arith

  labels-inject : (pod : Pod) → (inject marshal config pod).labels ≡ pod.labels
  unfolding inject annotate inject_spec
  labels-inject pod =
      labels-annotate_config config (annotate injected_annotation "true" (inject_spec config pod))

  annotation-annotate_config :
      (o : Option GovernanceConfig) (k : String) (pod : Pod)
      → (governance_config_annotation == k) ≡ false
      → annotation k (annotate_config marshal o pod) ≡ annotation k pod
  unfolding annotate_config
  annotation-annotate_config none k pod h = refl
  annotation-annotate_config (some c) k pod h = elim (Option-cases (marshal c)) [
    | inl e ↦ rw e refl
    | inr (text, e) ↦ rw (e, annotation-annotate governance_config_annotation k text pod, h) refl
  ]

  annotation-inject_spec :
      (k : String) (pod : Pod) → annotation k (inject_spec config pod) ≡ annotation k pod
  unfolding annotation inject_spec
  annotation-inject_spec k pod = refl

  annotation-inject :
      (pod : Pod)
      → annotation inject_annotation (inject marshal config pod) ≡ annotation inject_annotation pod
  unfolding inject
  annotation-inject pod =
      annotation-annotate_config config inject_annotation _ refl
      ∙ annotation-annotate injected_annotation inject_annotation "true" (inject_spec config pod)
      ∙ annotation-inject_spec inject_annotation pod

  volumes-twice :
      (pod : Pod)
      → HasNamesOnce (inject marshal config (inject marshal config pod)).spec.volumes
      → ⊥
  volumes-twice pod h =
      let named = has_name "compute-sentry-uds" in
      let vs = pod.spec.volumes in
      omega (
        arith,
        tally-append named (vs ++ injected_volumes) injected_volumes,
        tally-append named vs injected_volumes,
        tally_of_HasNamesOnce "compute-sentry-uds" ((vs ++ injected_volumes) ++ injected_volumes) (
            subst HasNamesOnce
              (volumes-inject marshal config (inject marshal config pod)
                ∙ ap (λ ws. ws ++ injected_volumes) (volumes-inject marshal config pod))
              h),
        one_each,
      )

module _ {Selector : Type 0} (matches : Selector → Map String String → Option Bool)
    (marshal : GovernanceConfig → Option String) (marshal_pod : Pod → Option String) where
  -- Admitting an injected pod again, under the same policies, injects it again: the answer is the patch
  -- to a pod in which two volumes have one name, which Kubernetes does not accept.
  pub handle-injected :
      (raw : String) (pod : Pod) (policies : List (ComputeSentryPolicy Selector))
      → should_inject (annotation inject_annotation pod) (match_policy matches pod.labels policies)
        ≡ true
      → (let config = governance_of (match_policy matches pod.labels policies) in
          let once = inject marshal config pod in
          (handle matches marshal marshal_pod raw (some once) (some policies)
            ≡ answer matches marshal marshal_pod raw (inject marshal config once))
          × ¬ HasNamesOnce (inject marshal config once).spec.volumes)
  unfolding handle mutate
  handle-injected raw pod policies on =
      let config = governance_of (match_policy matches pod.labels policies) in
      (
        rw (annotation-inject marshal config pod, labels-inject marshal config pod, on) refl,
        volumes-twice marshal config pod,
      )
