-- ===== src/Health/Rounds.antt =====
-- What a whole call of Reconcile keeps, from what its calls on the pod's node and its eviction keep.
use compute_sentry.Prelude.{◌≡◌, Bool, Option, none, some}
use compute_sentry.Prelude.Text.{Text}
use compute_sentry.Api.{ComputeSentryPolicy}
use compute_sentry.Objects.{Pod, Node}
use compute_sentry.Health.Server.{Server, Result, ok, err, not_found}
use compute_sentry.Health.Keeps.{
  Keeps, Keeps-pure, Keeps-fail, Keeps-read, Keeps-if, Keeps-attempt, Keeps-bind, keeps_rules,
}
use compute_sentry.Health.{
  taint_node, untaint_node, untaint_read, untaint_node_if_tainted_by_us, TaintDecision,
  find_matching_policy, get_node_pods_health_status, evaluate_node_taint_decision, apply_decision,
  evict_if_unhealthy, remediate, leave_untainted, done, act_on_policy, reconcile_pod,
}

module _ (s : Server) (clientset : Bool) (P : s.World → Type 0) (name : Text)
    (taints : Keeps P (taint_node s name)) (untaints : Keeps P (untaint_node s name))
    (evicts : (pod : Pod) (policy : ComputeSentryPolicy s.Selector)
      → Keeps P (evict_if_unhealthy s clientset pod policy)) where
  apply_decision-Keeps :
      (decision : TaintDecision) → Keeps P (apply_decision s clientset name decision)
  unfolding apply_decision
  apply_decision-Keeps decision =
      Keeps-if decision.should_taint _ _ (λ _. taints)
        (λ _. Keeps-if decision.should_untaint _ _ (λ _. untaints) (λ _. Keeps-pure tt))

  untaint_read-Keeps : (r : Result Node) → Keeps P (untaint_read s name r)
  unfolding untaint_read
  untaint_read-Keeps (ok node) = Keeps-if _ _ _ (λ _. untaints) (λ _. Keeps-pure tt)
  untaint_read-Keeps (err not_found) = Keeps-pure tt
  untaint_read-Keeps (err e) = Keeps-fail e

  leave_untainted-Keeps :
      (pod : Pod) → pod.spec.node_name ≡ name → Keeps P (leave_untainted s clientset pod)
  unfolding leave_untainted untaint_node_if_tainted_by_us
  leave_untainted-Keeps pod here =
      rw here (
        Keeps-bind _ _ (Keeps-attempt _ _ (Keeps-read _) untaint_read-Keeps) (λ _. Keeps-pure done))

  remediate-Keeps :
      (pod : Pod) (policy : ComputeSentryPolicy s.Selector)
      → pod.spec.node_name ≡ name
      → Keeps P (remediate s clientset pod policy)
  unfolding remediate evaluate_node_taint_decision get_node_pods_health_status
  remediate-Keeps pod policy here =
      rw here (search (keeps_rules, evicts, apply_decision-Keeps) depth 8)

  act-Keeps :
      (pod : Pod) (policy : Option (ComputeSentryPolicy s.Selector))
      → pod.spec.node_name ≡ name
      → Keeps P (act_on_policy s clientset pod policy)
  unfolding act_on_policy
  act-Keeps pod none here = leave_untainted-Keeps pod here
  act-Keeps pod (some policy) here =
      Keeps-if policy.spec.actions.enable_taint _ _ (λ _. remediate-Keeps pod policy here)
        (λ _. leave_untainted-Keeps pod here)

  pub reconcile_pod-Keeps :
      (pod : Pod) → pod.spec.node_name ≡ name → Keeps P (reconcile_pod s clientset pod)
  unfolding reconcile_pod find_matching_policy
  reconcile_pod-Keeps pod here = search (keeps_rules, act-Keeps) depth 8
