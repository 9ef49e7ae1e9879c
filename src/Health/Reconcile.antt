-- ===== src/Health/Reconcile.antt =====
-- `Reconcile` of the health controller, and the operations that it is made of.
use compute_sentry.Prelude.{
  ℕ, Bool, Option, none, some, String, List, [], ◌∷◌, length, tally, maybe, ◌==◌, if◌then◌else◌,
  ◌&&◌,
}
use compute_sentry.Prelude.Text.{Text, text_eq}
use compute_sentry.Prelude.Map.{Map}
use compute_sentry.Api.{ComputeSentryPolicy}
use compute_sentry.Objects.{Pod}
use compute_sentry.Health.Server.{
  Server, not_found, too_many_unhealthy, Result, ok, err, Action, pure, fail, read, write, attempt,
  ◌>>=◌, ◌>>◌,
}
use compute_sentry.Health.Status.{
  is_unhealthy, count_pods, no_pods, NodePodsHealthStatus, TaintDecision, decide, is_throttled,
}
use compute_sentry.Health.Taints.{
  is_tainted, taint_node, untaint_node, untaint_node_if_tainted_by_us,
}

-- ctrl.Result: nothing more to do, or a requeue after so many seconds.
pub data Outcome : Type 0 where
  done : Outcome
  requeue_after : ℕ → Outcome

-- `findMatchingPolicy`'s loop: the first policy whose selector is valid and matches.
unfoldable pub first_matching :
    {Selector : Type 0}
    → (Selector → Map String String → Option Bool)
    → Map String String
    → List (ComputeSentryPolicy Selector)
    → Option (ComputeSentryPolicy Selector)
first_matching matches labels [] = none
first_matching matches labels (policy ∷ policies) =
    let rest = first_matching matches labels policies in
    maybe (matches policy.spec.selector labels) rest
      (λ matched. if matched then some policy else rest)

-- Whether `has_clientset`, that is, K8sClient is not nil.
module _ (server : Server) (has_clientset : Bool) where
  open server use {
    World, Selector, matches, get_pod, get_node, list_policies, list_pods_on, list_pods_by, evict,
    delete_pod,
  }

  unfoldable pub find_matching_policy : Pod → Action World (Option (ComputeSentryPolicy Selector))
  find_matching_policy pod = do
    policies ← read list_policies
    pure (first_matching matches pod.labels policies)

  unfoldable pub get_node_pods_health_status : Text → Action World NodePodsHealthStatus
  get_node_pods_health_status node_name = do
    pods ← read (list_pods_on node_name)
    pure (count_pods pods no_pods)

  unfoldable pub evaluate_node_taint_decision :
      Text → ComputeSentryPolicy Selector → Action World TaintDecision
  evaluate_node_taint_decision node_name policy = do
    node ← read (get_node node_name)
    status ← get_node_pods_health_status node_name
    pure (decide policy.spec.actions.node_taint_threshold (is_tainted node) status)

  unfoldable pub evict_pod : Pod → Action World (Unit {0})
  evict_pod pod =
      if has_clientset
      then write (evict pod.namespace pod.name)
      else write (delete_pod pod.namespace pod.name)

  unfoldable pub check_eviction_throttling : ComputeSentryPolicy Selector → Action World (Unit {0})
  check_eviction_throttling policy = do
    pods ← read (list_pods_by policy.spec.selector)
    if is_throttled (tally is_unhealthy pods) (length pods)
        then fail (too_many_unhealthy (tally is_unhealthy pods) (length pods))
        else pure tt

  unfoldable pub apply_decision : Text → TaintDecision → Action World (Unit {0})
  apply_decision node_name decision =
      if decision.should_taint
      then taint_node server node_name
      else if decision.should_untaint
      then untaint_node server node_name
      else pure tt

  -- Any error of the throttling check, a failed List call too, puts the eviction off.
  unfoldable pub unless_throttled : Result (Unit {0}) → Pod → Action World Outcome
  unless_throttled (ok _) pod = do evict_pod pod; pure done
  unless_throttled (err e) pod = pure (requeue_after 60)

  unfoldable pub evict_if_unhealthy : Pod → ComputeSentryPolicy Selector → Action World Outcome
  evict_if_unhealthy pod policy =
      if is_unhealthy pod && policy.spec.actions.enable_evict
      then attempt (check_eviction_throttling policy) (λ result. unless_throttled result pod)
      else pure done

  -- The node of the pod under a policy that enables the taint.
  unfoldable pub remediate : Pod → ComputeSentryPolicy Selector → Action World Outcome
  remediate pod policy = do
    decision ← evaluate_node_taint_decision pod.spec.node_name policy
    apply_decision pod.spec.node_name decision
    evict_if_unhealthy pod policy

  unfoldable pub leave_untainted : Pod → Action World Outcome
  leave_untainted pod = do untaint_node_if_tainted_by_us server pod.spec.node_name; pure done

  unfoldable pub act_on_policy : Pod → Option (ComputeSentryPolicy Selector) → Action World Outcome
  act_on_policy pod none = leave_untainted pod
  act_on_policy pod (some policy) =
      if policy.spec.actions.enable_taint then remediate pod policy else leave_untainted pod

  unfoldable pub reconcile_pod : Pod → Action World Outcome
  reconcile_pod pod = do
    policy ← find_matching_policy pod
    if pod.spec.node_name == [] then pure done else act_on_policy pod policy

  unfoldable pub reconcile_read : Result Pod → Action World Outcome
  reconcile_read (ok pod) = reconcile_pod pod
  reconcile_read (err not_found) = pure done
  reconcile_read (err e) = fail e

  -- `Reconcile`, for the request (namespace, name).
  unfoldable pub reconcile : Text → Text → Action World Outcome
  reconcile namespace name = attempt (read (get_pod namespace name)) reconcile_read
