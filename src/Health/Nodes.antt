-- ===== src/Health/Nodes.antt =====
-- The eviction of a pod, and the nodes on the server.
use compute_sentry.Prelude.{◌≡◌, ◌∙◌, Bool}
use compute_sentry.Prelude.Text.{Text}
use compute_sentry.Api.{ComputeSentryPolicy}
use compute_sentry.Objects.{Node, Pod}
use compute_sentry.Health.Server.{Server, Result, ok, err, Eviction, Action}
use compute_sentry.Health.Keeps.{Keeps, Keeps-pure, Keeps-if, Keeps-bind, Keeps-write, keeps_rules}
use compute_sentry.Health.{
  evict_pod, check_eviction_throttling, unless_throttled, evict_if_unhealthy, done, requeue_after,
}

module _ (s : Server) (evicts : Eviction s) (clientset : Bool) (name : Text) (n : Node) where
  abbrev pub Untouched : {A : Type 0} → Action s.World A → Type 0
  Untouched = Keeps (λ w. s.get_node name w ≡ ok n)

  evict_pod-Untouched : (pod : Pod) → Untouched (evict_pod s clientset pod)
  unfolding evict_pod
  evict_pod-Untouched pod =
      Keeps-if clientset _ _
        (λ _. Keeps-write _ λ w w' h e. evicts.evicted pod.namespace pod.name name w w' e ∙ h)
        (λ _. Keeps-write _ λ w w' h e. evicts.deleted pod.namespace pod.name name w w' e ∙ h)

  unless_throttled-Untouched :
      (r : Result Unit) (pod : Pod) → Untouched (unless_throttled s clientset r pod)
  unfolding unless_throttled
  unless_throttled-Untouched (ok _) pod =
      Keeps-bind _ _ (evict_pod-Untouched pod) (λ _. Keeps-pure done)
  unless_throttled-Untouched (err e) pod = Keeps-pure (requeue_after 60)

  throttling-Untouched :
      (policy : ComputeSentryPolicy s.Selector)
      → Untouched (check_eviction_throttling s clientset policy)
  unfolding check_eviction_throttling
  throttling-Untouched policy = search keeps_rules

  pub evict_if-Untouched :
      (pod : Pod) (policy : ComputeSentryPolicy s.Selector)
      → Untouched (evict_if_unhealthy s clientset pod policy)
  unfolding evict_if_unhealthy
  evict_if-Untouched pod policy =
      search (keeps_rules, throttling-Untouched, unless_throttled-Untouched)
