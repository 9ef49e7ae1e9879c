-- ===== src/Mutator/Admission.antt =====
-- What `Handle` answers for a pod.
use compute_sentry.Prelude.{
  ◌≤◌, Bool, false, Option, none, some, String, List, [], ◌∷◌, map, ◌≡◌, ◌∙◌, refl, ap, All, tally,
  maybe, ◌==◌, string_eq, if◌then◌else◌, Bool-cases, Option-cases, inl, inr,
}
use compute_sentry.Prelude.Map.{Map}
use compute_sentry.Api.{GovernanceConfig, ComputeSentryPolicy}
use compute_sentry.Objects.{Pod, EnvVar, Container, PodSpec, annotation}
use compute_sentry.Mutator.{
  ld_preload, is_named, inject_container, match_policy, should_inject, gov_config, governance_of,
  inject_spec, annotate, annotate_config, inject, inject_annotation, injected_annotation,
  governance_config_annotation, Response, patch_from_raw, allowed, errored, answer, mutate, handle,
}
use compute_sentry.Mutator.Env.{effective, preloaded, effective-inject_container}
use compute_sentry.Mutator.Reinvocation.{annotation-annotate}
use compute_sentry.Mutator.Priority.{IsChoice, match_policy_lem}

-- The LD_PRELOAD that each container starts with.
abbrev pub preloads : List Container → List (Option EnvVar)
preloads containers = map (λ c. effective ld_preload c.env) containers

-- The same with the spy library in front, or alone.
abbrev pub spied : List Container → List (Option EnvVar)
spied containers = map (λ c. some (preloaded (effective ld_preload c.env))) containers

spied_container :
    (c : Container)
    → tally (is_named ld_preload) c.env ≤ 1
    → effective ld_preload (inject_container c).env ≡ some (preloaded (effective ld_preload c.env))
spied_container c once = effective-inject_container c ld_preload once

spied_containers :
    (containers : List Container)
    → All (λ c. tally (is_named ld_preload) c.env ≤ 1) containers
    → preloads (map inject_container containers) ≡ spied containers
spied_containers [] once = refl
spied_containers (c ∷ containers) once =
    rw (spied_container c once.0, spied_containers containers once.1) refl

-- What the two annotations leave of a pod, and what they write.
annotated :
    (marshal : GovernanceConfig → Option String) (config : Option GovernanceConfig) (pod : Pod)
    → ((annotate_config marshal config pod).name ≡ pod.name)
      × ((annotate_config marshal config pod).namespace ≡ pod.namespace)
      × ((annotate_config marshal config pod).spec ≡ pod.spec)
      × (annotation injected_annotation (annotate_config marshal config pod)
          ≡ annotation injected_annotation pod)
      × (annotation governance_config_annotation (annotate_config marshal config pod)
          ≡ maybe config
              (annotation governance_config_annotation pod)
              (λ c. maybe (marshal c) (annotation governance_config_annotation pod) some))
unfolding annotate_config annotate
annotated marshal none pod = (refl, refl, refl, refl, refl)
annotated marshal (some c) pod = elim (Option-cases (marshal c)) [
  | inl e ↦ rw e (refl, refl, refl, refl, refl)
  | inr (text, e) ↦ rw e (
    refl,
    refl,
    refl,
    annotation-annotate governance_config_annotation injected_annotation text pod,
    annotation-annotate governance_config_annotation governance_config_annotation text pod,
  )
]

-- The mark leaves the agent's annotation.
governance_before :
    (config : Option GovernanceConfig) (pod : Pod)
    → annotation governance_config_annotation
        (annotate injected_annotation "true" (inject_spec config pod))
      ≡ annotation governance_config_annotation pod
unfolding inject_spec annotation
governance_before config pod =
    annotation-annotate injected_annotation governance_config_annotation "true"
      (inject_spec config pod)

module _ {Selector : Type 0} (marshal : GovernanceConfig → Option String) where
  -- What a policy, or none, leaves in the agent's annotation: its thresholds and window, or what was
  -- there before.
  abbrev pub governance_text : Option (ComputeSentryPolicy Selector) → Pod → Option String
  governance_text none pod = annotation governance_config_annotation pod
  governance_text (some policy) pod =
      maybe
        (marshal
          (record { thresholds = policy.spec.thresholds; eval_config = policy.spec.eval_config }))
        (annotation governance_config_annotation pod) some

  -- The pod as it is injected under a policy or none.
  pub record IsInjectedAs (choice : Option (ComputeSentryPolicy Selector)) (pod injected : Pod)
      : Type 0 where
    pub named : injected.name ≡ pod.name
    pub placed : injected.namespace ≡ pod.namespace
    pub spies : preloads injected.spec.containers ≡ spied pod.spec.containers
    pub marked : annotation injected_annotation injected ≡ some "true"
    pub governed : annotation governance_config_annotation injected ≡ governance_text choice pod

  governed_lem :
      (choice : Option (ComputeSentryPolicy Selector)) (pod : Pod)
      → maybe
          (governance_of choice)
          (annotation governance_config_annotation pod)
          (λ c. maybe (marshal c) (annotation governance_config_annotation pod) some)
        ≡ governance_text choice pod
  unfolding governance_of gov_config
  governed_lem none pod = refl
  governed_lem (some policy) pod = refl

  inject-IsInjectedAs :
      (choice : Option (ComputeSentryPolicy Selector)) (pod : Pod)
      → All (λ c. tally (is_named ld_preload) c.env ≤ 1) pod.spec.containers
      → IsInjectedAs choice pod (inject marshal (governance_of choice) pod)
  unfolding inject annotate inject_spec
  inject-IsInjectedAs choice pod once =
      let config = governance_of choice in
      let spied_pod = inject_spec config pod in
      let base = annotate injected_annotation "true" spied_pod in
      let (named, placed, kept, marked, governed) = annotated marshal config base in
      record {
        named = named;
        placed = placed;
        spies =
            ap (λ (spec : PodSpec). preloads spec.containers) kept
            ∙ spied_containers pod.spec.containers once;
        marked =
            marked ∙ annotation-annotate injected_annotation injected_annotation "true" spied_pod;
        governed =
            governed
            ∙ ap (λ (t : Option String). maybe config t (λ c. maybe (marshal c) t some))
                (governance_before config pod)
            ∙ governed_lem choice pod;
      }

module _ {Selector : Type 0} (matches : Selector → Map String String → Option Bool)
    (marshal : GovernanceConfig → Option String) (marshal_pod : Pod → Option String) where
  -- The pod's annotation decides if it has one, else the policy's flag, and without a policy it is off.
  abbrev pub is_enabled : Pod → Option (ComputeSentryPolicy Selector) → Bool
  is_enabled pod choice =
      maybe (annotation inject_annotation pod)
        (maybe choice false (λ policy. policy.spec.spy_config.enabled)) (λ value. value == "true")

  pub record IsAnswer (raw : String) (pod : Pod) (policies : List (ComputeSentryPolicy Selector))
      (response : Response) : Type 0 where
    pub choice : Option (ComputeSentryPolicy Selector)
    pub injected : Pod
    pub first : IsChoice matches pod.labels policies choice
    pub shape : IsInjectedAs marshal choice pod injected
    pub given : response ≡ (
        if is_enabled pod choice
        then maybe (marshal_pod injected) (errored 500) (λ marshaled. patch_from_raw raw marshaled)
        else allowed)

  should_inject_lem :
      (value : Option String) (policy : Option (ComputeSentryPolicy Selector))
      → should_inject value policy
        ≡ maybe value (maybe policy false (λ p. p.spec.spy_config.enabled)) (λ v. v == "true")
  unfolding should_inject
  should_inject_lem none none = refl
  should_inject_lem none (some p) = refl
  should_inject_lem (some v) policy = refl

  -- `Handle` of a pod: the first policy of the list that selects the pod is chosen; the pod's annotation, or
  -- else the flag of that policy, decides on the injection; without it the pod is allowed as it is, and with
  -- it the answer is the patch from the raw object to the injected pod, or an error 500 if that cannot be
  -- marshalled. In the injected pod every container starts with the spy library in front of its own
  -- LD_PRELOAD, the pod is marked as injected, and the agent's annotation holds the thresholds and the
  -- window of the chosen policy, or what it held, if there is no policy or its configuration cannot be
  -- marshalled. The containers name LD_PRELOAD at most once each.
  pub handle-IsAnswer :
      (raw : String) (pod : Pod) (policies : List (ComputeSentryPolicy Selector))
      → All (λ c. tally (is_named ld_preload) c.env ≤ 1) pod.spec.containers
      → IsAnswer raw pod policies
          (handle matches marshal marshal_pod raw (some pod) (some policies))
  unfolding handle mutate answer
  handle-IsAnswer raw pod policies once =
      let choice = match_policy matches pod.labels policies in
      record {
        choice = choice;
        injected = inject marshal (governance_of choice) pod;
        first = match_policy_lem matches pod.labels policies;
        shape = inject-IsInjectedAs marshal choice pod once;
        given =
            rw (should_inject_lem (annotation inject_annotation pod) choice)
              (elim (Bool-cases (is_enabled pod choice)) [ inl e ↦ rw e refl | inr e ↦ rw e refl ]);
      }
