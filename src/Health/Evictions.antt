-- ===== src/Health/Evictions.antt =====
-- Which reconciliations can touch a pod.
use compute_sentry.Prelude.{Bool, false, Option, none, some, List, [], ◌≡◌, arith, ◌&&◌, ◌==◌, ◌∙◌}
use compute_sentry.Prelude.Text.{Text, text_eq}
use compute_sentry.Api.{ComputeSentryPolicy}
use compute_sentry.Objects.{Pod, Node}
use compute_sentry.Health.Server.{
  Server, MergePatch, Result, ok, err, not_found, Action, pure, read, write, attempt, unless_error,
  ◌>>=◌,
}
use compute_sentry.Health.Keeps.{Keeps, Keeps-pure, Keeps-fail, Keeps-if, Keeps-write, keeps_rules}
use compute_sentry.Health.{
  is_unhealthy, add_taint, taint_node, untaint_node, untaint_read, untaint_node_if_tainted_by_us,
  TaintDecision, first_matching, find_matching_policy, get_node_pods_health_status,
  evaluate_node_taint_decision, apply_decision, evict_if_unhealthy, remediate, leave_untainted,
  done, act_on_policy, reconcile_pod, reconcile_read, reconcile,
}

-- Whether a pod under its policy can be evicted: it is marked unhealthy, and the policy enables the
-- eviction and the taint.
abbrev pub may_evict : {Selector : Type 0} → Pod → Option (ComputeSentryPolicy Selector) → Bool
may_evict pod none = false
may_evict pod (some policy) =
    is_unhealthy pod && policy.spec.actions.enable_evict && policy.spec.actions.enable_taint

module _ (s : Server) (laws : MergePatch s) (clientset : Bool) (node : Text)
    (pods : Result (List Pod)) where
  -- The pods that the server lists for a node are these.
  abbrev HasPods : s.World → Type 0
  HasPods w = s.list_pods_on node w ≡ pods

  abbrev Spares : {A : Type 0} → Action s.World A → Type 0
  Spares = Keeps HasPods

  patch-Spares : (object base : Node) → Spares (write (s.patch_node object base))
  patch-Spares object base =
      Keeps-write (s.patch_node object base) λ w w' h e. laws.pods_kept object base w w' node e ∙ h

  taint_node-Spares : (name : Text) → Spares (taint_node s name)
  unfolding taint_node add_taint
  taint_node-Spares name = search (keeps_rules, patch-Spares)

  untaint_node-Spares : (name : Text) → Spares (untaint_node s name)
  unfolding untaint_node
  untaint_node-Spares name = search (keeps_rules, patch-Spares)

  apply_decision-Spares :
      (name : Text) (decision : TaintDecision) → Spares (apply_decision s clientset name decision)
  unfolding apply_decision
  apply_decision-Spares name decision = search (keeps_rules, taint_node-Spares, untaint_node-Spares)

  untaint_read-Spares : (name : Text) (r : Result Node) → Spares (untaint_read s name r)
  unfolding untaint_read
  untaint_read-Spares name (ok n) = search (keeps_rules, untaint_node-Spares)
  untaint_read-Spares name (err not_found) = Keeps-pure tt
  untaint_read-Spares name (err e) = Keeps-fail e

  leave_untainted-Spares : (pod : Pod) → Spares (leave_untainted s clientset pod)
  unfolding leave_untainted untaint_node_if_tainted_by_us
  leave_untainted-Spares pod = search (keeps_rules, untaint_read-Spares)

  evict_if-Spares :
      (pod : Pod) (policy : ComputeSentryPolicy s.Selector)
      → (is_unhealthy pod && policy.spec.actions.enable_evict) ≡ false
      → Spares (evict_if_unhealthy s clientset pod policy)
  unfolding evict_if_unhealthy
  evict_if-Spares pod policy off = rw off (Keeps-pure done)

  remediate-Spares :
      (pod : Pod) (policy : ComputeSentryPolicy s.Selector)
      → (is_unhealthy pod && policy.spec.actions.enable_evict) ≡ false
      → Spares (remediate s clientset pod policy)
  unfolding remediate evaluate_node_taint_decision get_node_pods_health_status
  remediate-Spares pod policy off =
      let last : Spares (evict_if_unhealthy s clientset pod policy) =
        evict_if-Spares pod policy off in
      search (keeps_rules, apply_decision-Spares) depth 8

  act-Spares :
      (pod : Pod) (policy : Option (ComputeSentryPolicy s.Selector))
      → may_evict pod policy ≡ false
      → Spares (act_on_policy s clientset pod policy)
  unfolding act_on_policy
  act-Spares pod none off = leave_untainted-Spares pod
  act-Spares pod (some policy) off =
      Keeps-if policy.spec.actions.enable_taint (remediate s clientset pod policy)
        (leave_untainted s clientset pod) (λ enabled. remediate-Spares pod policy (ground arith))
        (λ _. leave_untainted-Spares pod)

  reconcile_pod-spares :
      (pod : Pod) (policies : List (ComputeSentryPolicy s.Selector)) (w : s.World)
      → s.list_policies w ≡ ok policies
      → may_evict pod (first_matching s.matches pod.labels policies) ≡ false
      → HasPods w
      → HasPods (reconcile_pod s clientset pod w).1
  unfolding reconcile_pod find_matching_policy ◌>>=◌ attempt read pure unless_error
  reconcile_pod-spares pod policies w listed off there = rw listed (
      (Keeps-if (pod.spec.node_name == []) (pure done) _ (λ _. Keeps-pure done)
          (λ _. act-Spares pod (first_matching s.matches pod.labels policies) off)).at
        w there)

  -- `Reconcile` evicts or deletes no pod of any node unless the request's pod is marked unhealthy and
  -- the first matching policy enables both the eviction and the taint: otherwise the pods that the
  -- server lists for a node are afterwards what they were.
  pub reconcile-spares :
      (namespace name : Text) (pod : Pod) (policies : List (ComputeSentryPolicy s.Selector))
      (w : s.World)
      → s.get_pod namespace name w ≡ ok pod
      → s.list_policies w ≡ ok policies
      → may_evict pod (first_matching s.matches pod.labels policies) ≡ false
      → s.list_pods_on node w ≡ pods
      → s.list_pods_on node (reconcile s clientset namespace name w).1 ≡ pods
  unfolding reconcile attempt read reconcile_read
  reconcile-spares namespace name pod policies w got listed off there =
      rw got (reconcile_pod-spares pod policies w listed off there)
