-- ===== src/Health/Remediation.antt =====
-- `Reconcile` of the health controller and the taint of the pod's node.
use mathlib.Core.Path.{subst}
use compute_sentry.Prelude.{
  ap, Bool, true, false, not, Option, none, some, List, [], ◌≡◌, ◌≢◌, refl, sym, ◌∙◌, arith,
  Bool-cases, inl, inr, ◌==◌, ==_iff,
}
use compute_sentry.Prelude.Text.{Text, text_eq}
use compute_sentry.Api.{ComputeSentryPolicy, NodeTaintThreshold}
use compute_sentry.Objects.{Node, Pod}
use compute_sentry.Health.Server.{
  Server, MergePatch, Eviction, Error, Result, ok, err, pure, read, attempt, unless_error, ◌>>=◌,
}
use compute_sentry.Health.{
  is_tainted, count_pods, no_pods, NodePodsHealthStatus, decide, taint_node, apply_decision,
  evict_if_unhealthy, remediate, evaluate_node_taint_decision, get_node_pods_health_status,
  first_matching, find_matching_policy, act_on_policy, reconcile_pod, reconcile_read, reconcile,
  Outcome,
}
use compute_sentry.Health.Decision.{wants_taint}
use compute_sentry.Health.Nodes.{evict_if-Untouched}
use compute_sentry.Health.Tainting.{IsTaintedNow, taint_node-IsTaintedNow, add_taint_again}

-- Where the pods call for the taint, the decision is to taint exactly if the node is not tainted yet.
decide-wants :
    (threshold : Option NodeTaintThreshold) (tainted : Bool) (status : NodePodsHealthStatus)
    → wants_taint threshold status ≡ true
    → ((decide threshold tainted status).should_taint ≡ not tainted)
      × ((decide threshold tainted status).should_untaint ≡ false)
unfolding decide
decide-wants none tainted status h = ground arith
decide-wants (some threshold) tainted status h = ground arith

err-ne-ok : {A : Type 0} (e : Error) (a : A) → err e ≢ ok a
err-ne-ok e a h = cc

module _ (s : Server) (laws : MergePatch s) (evicts : Eviction s) (clientset : Bool) (name : Text)
    (n : Node) (named : n.name ≡ name) (nonempty : name ≢ []) where
  abbrev Tainted : s.World → Type 0
  Tainted = IsTaintedNow s laws name n named

  -- The eviction that follows leaves it at that.
  evict_if-Tainted :
      (pod : Pod) (policy : ComputeSentryPolicy s.Selector) (w : s.World)
      → Tainted w
      → Tainted (evict_if_unhealthy s clientset pod policy w).1
  evict_if-Tainted pod policy w h =
      let w' = (evict_if_unhealthy s clientset pod policy w).1 in
      let there : s.get_node name w' ≡ ok h.node =
        (evict_if-Untouched s evicts clientset name h.node pod policy).at w h.there in
      record {
        node = h.node;
        there = there;
        ours = h.ours;
        kept = h.kept;
        again = add_taint_again s laws name n named h.node w' there h.ours nonempty;
      }

  -- Where the pods call for the taint, carrying the decision out is tainting the node.
  apply_decision-taint_node :
      (w : s.World) (threshold : Option NodeTaintThreshold) (status : NodePodsHealthStatus)
      → s.get_node name w ≡ ok n
      → wants_taint threshold status ≡ true
      → apply_decision s clientset name (decide threshold (is_tainted n) status) w
        ≡ taint_node s name w
  unfolding apply_decision pure
  apply_decision-taint_node w threshold status there wants =
      let (taints, untaints) = decide-wants threshold (is_tainted n) status wants in
      elim (Bool-cases (is_tainted n)) [
        | inl ours ↦
            rw (taints, untaints, add_taint_again s laws name n named n w there ours nonempty, ours)
              refl
        | inr clean ↦ rw (taints, clean) refl
      ]

  -- A remediation that ends well has tainted the node.
  remediated :
      (pod : Pod) (policy : ComputeSentryPolicy s.Selector) (w w' : s.World) (r : Result Unit)
      (outcome : Outcome)
      → s.get_node name w ≡ ok n
      → taint_node s name w ≡ (r, w')
      → (unless_error (λ _. evict_if_unhealthy s clientset pod policy) r w').0 ≡ ok outcome
      → Tainted (unless_error (λ _. evict_if_unhealthy s clientset pod policy) r w').1
  unfolding unless_error
  remediated pod policy w w' (ok tt) outcome there tainted success =
      evict_if-Tainted pod policy w'
        (taint_node-IsTaintedNow s laws name n named w w' nonempty there tainted)
  remediated pod policy w w' (err e) outcome there tainted success =
      absurd (err-ne-ok e outcome success)

  remediate_lem :
      (pod : Pod) (policy : ComputeSentryPolicy s.Selector) (w : s.World) (pods : List Pod)
      → pod.spec.node_name ≡ name
      → s.get_node name w ≡ ok n
      → s.list_pods_on name w ≡ ok pods
      → wants_taint policy.spec.actions.node_taint_threshold (count_pods pods no_pods) ≡ true
      → remediate s clientset pod policy w
        ≡ (taint_node s name >>= λ _. evict_if_unhealthy s clientset pod policy) w
  unfolding remediate evaluate_node_taint_decision get_node_pods_health_status ◌>>=◌ attempt
      unless_error read pure
  remediate_lem pod policy w pods here there listed wants =
      rw (here, there, listed, apply_decision-taint_node w _ _ there wants) refl

  reconcile_lem :
      (namespace pod_name : Text) (pod : Pod) (policies : List (ComputeSentryPolicy s.Selector))
      (policy : ComputeSentryPolicy s.Selector) (w : s.World)
      → s.get_pod namespace pod_name w ≡ ok pod
      → s.list_policies w ≡ ok policies
      → first_matching s.matches pod.labels policies ≡ some policy
      → policy.spec.actions.enable_taint ≡ true
      → pod.spec.node_name ≡ name
      → reconcile s clientset namespace pod_name w ≡ remediate s clientset pod policy w
  unfolding reconcile reconcile_read reconcile_pod find_matching_policy act_on_policy attempt read
      pure ◌>>=◌ unless_error
  reconcile_lem namespace pod_name pod policies policy w got listed first on here =
      let guarded : (pod.spec.node_name == []) ≡ false = rw here (ground (arith, ==_iff name [])) in
      rw (got, listed, guarded, first, on) refl

  -- `Reconcile` of a pod taints the pod's node: where the first matching policy enables the taint, the
  -- pods on the node call for it (by the policy's threshold, or if any of them is unhealthy), and the
  -- call ends without an error, the node carries the taint on the server, beside its other taints as
  -- they were.
  pub reconcile-taints :
      (namespace pod_name : Text) (pod : Pod) (policies : List (ComputeSentryPolicy s.Selector))
      (policy : ComputeSentryPolicy s.Selector) (pods : List Pod) (w : s.World) (outcome : Outcome)
      → s.get_pod namespace pod_name w ≡ ok pod
      → s.list_policies w ≡ ok policies
      → first_matching s.matches pod.labels policies ≡ some policy
      → policy.spec.actions.enable_taint ≡ true
      → pod.spec.node_name ≡ name
      → s.get_node name w ≡ ok n
      → s.list_pods_on name w ≡ ok pods
      → wants_taint policy.spec.actions.node_taint_threshold (count_pods pods no_pods) ≡ true
      → (reconcile s clientset namespace pod_name w).0 ≡ ok outcome
      → IsTaintedNow s laws name n named (reconcile s clientset namespace pod_name w).1
  unfolding unless_error ◌>>=◌
  reconcile-taints namespace pod_name pod policies policy pods w outcome got listed first on here
        there there_pods wants success =
      let path =
        reconcile_lem namespace pod_name pod policies policy w got listed first on here
        ∙ remediate_lem pod policy w pods here there there_pods wants in
      subst (λ r. Tainted r.1) (sym path)
        (remediated pod policy w (taint_node s name w).1 (taint_node s name w).0 outcome there refl
          (sym (ap (λ r. r.0) path) ∙ success))
