-- ===== src/System/Recovery.antt =====
-- A recovery on its way from the agent to the operator: the patches of the pods on the API server, and
-- the decision on their node.
use mathlib.Core.Path.{subst}
use compute_sentry.Prelude.{
  Bool, true, false, some, none, List, [], ◌∷◌, ◌++◌, map, All, All-map, exists, ◌≡◌, refl, ap, ◌∙◌,
  arith, Bool-cases, inl, inr, string_eq,
}
use compute_sentry.Prelude.Int.{ℤ}
use compute_sentry.Prelude.Text.{HasNoSlash, join_slash, text_eq}
use compute_sentry.Prelude.Map
use compute_sentry.Objects.{Pod}
use compute_sentry.Evaluator.{HealthEvaluator, PatchCall, is_unnamed, check_recovery_and_cleanup}
use compute_sentry.Evaluator.Invariant.{IsWellFormed}
use compute_sentry.Evaluator.Recovery.{IsCalm, calls-check_recovery_and_cleanup}
use compute_sentry.Evaluator.Reports.{Includes, Includes-check_recovery_and_cleanup}
use compute_sentry.Health.{is_unhealthy, count_pods, no_pods, decide}
use compute_sentry.Health.Decision.{wants_taint-default}
use compute_sentry.System.Served.{
  served, served_pod, served-map, served_pod-append, served_names, served_healthy,
  is_unhealthy-patched,
}

-- The agent has the pod's violations on record, and they are old enough for a recovery.
pub record IsOver (e : HealthEvaluator) (now : ℤ) (pod : Pod) : Type 0 where
  pub plain_namespace : HasNoSlash pod.namespace
  pub plain_name : HasNoSlash pod.name
  pub named : is_unnamed pod.name ≡ false
  pub times : List ℤ
  pub recorded : Map.lookup (join_slash pod.namespace pod.name) e.violation_times ≡ some times
  pub calm : IsCalm e now (join_slash pod.namespace pod.name)

abbrev healthy_call : Pod → PatchCall
healthy_call pod = record { name = pod.name; namespace = pod.namespace; status = "healthy" }

All-behind {ℓ} :
    {A : Type ℓ} (P : A → Type 0) (before : List A) (x : A) (later : List A)
    → All P (before ++ x ∷ later)
    → All P later
All-behind P [] x later h = h.1
All-behind P (y ∷ before) x later h = All-behind P before x later h.1

-- A pod with a "healthy" call among the calls, which all say "healthy", is not marked unhealthy after them.
served_recovered :
    (calls : List PatchCall) (pod : Pod)
    → All (λ call. call.status ≡ "healthy") calls
    → Includes calls (healthy_call pod)
    → is_unhealthy (served_pod calls pod) ≡ false
unfolding served_pod
served_recovered calls pod statuses included =
    let reached = served_pod included.before pod in
    let names = served_names included.before pod in
    ap (λ cs. is_unhealthy (served_pod cs pod)) included.found
    ∙ ap is_unhealthy (served_pod-append included.before (healthy_call pod ∷ included.after) pod)
    ∙ served_healthy included.after _
        (All-behind _ included.before (healthy_call pod) included.after
          (subst (All (λ call. call.status ≡ "healthy")) included.found statuses))
        (is_unhealthy-patched (healthy_call pod) reached names.0 names.1 ∙ refl)

not-exists-map {ℓ} :
    {A : Type ℓ} (f : A → A) (p : A → Bool) (xs : List A)
    → All (λ x. p (f x) ≡ false) xs
    → exists p (map f xs) ≡ false
unfolding exists
not-exists-map f p [] h = refl
not-exists-map f p (x ∷ xs) h = ground (arith, h.0, not-exists-map f p xs h.1)

module _ (e : HealthEvaluator) (now : ℤ) (w : IsWellFormed e) (client : e.has_client ≡ true) where
  abbrev calls : List PatchCall
  calls = (check_recovery_and_cleanup e now).1

  only_healthy : All (λ call. call.status ≡ "healthy") calls
  only_healthy = All-map _ _ _ (λ call h. h.0) (calls-check_recovery_and_cleanup e now w)

  swept_pod :
      (pod : Pod)
      → (is_unhealthy pod ≡ true → IsOver e now pod)
      → is_unhealthy (served_pod calls pod) ≡ false
  swept_pod pod h = elim (Bool-cases (is_unhealthy pod)) [
    | inl unhealthy ↦
        let over = h unhealthy in
        served_recovered calls pod only_healthy (
          Includes-check_recovery_and_cleanup pod.namespace pod.name over.plain_namespace
            over.plain_name over.named e now over.times w client over.recorded over.calm)
    | inr healthy ↦ served_healthy calls pod only_healthy healthy
  ]

  -- After a sweep the operator decides to untaint the node: if the agent has the violations of each unhealthy pod of a tainted node on
  -- record, the pod is flagged and its violations are all out of its window and before the recovery
  -- cutoff, and the API server patches the pods as it is told, the operator's decision on the node,
  -- whose policy names no threshold, is to take the taint away. The evaluator is well-formed and has a
  -- client, and the names of the pods have no slash.
  pub recovery-untaints :
      (pods : List Pod)
      → All (λ pod. is_unhealthy pod ≡ true → IsOver e now pod) pods
      → (decide none true (count_pods (served calls pods) no_pods)).should_untaint ≡ true
  unfolding decide
  recovery-untaints pods over =
      let none_left : exists is_unhealthy (served calls pods) ≡ false = rw (served-map calls pods) (
        not-exists-map (served_pod calls) is_unhealthy pods
          (All-map _ _ pods (λ pod h. swept_pod pod h) over)) in
      ground (arith, wants_taint-default (served calls pods), none_left)
