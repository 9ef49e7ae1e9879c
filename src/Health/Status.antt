-- ===== src/Health/Status.antt =====
-- The count of a node's pods and the decision to taint or untaint the node, and the eviction throttle.
use compute_sentry.Prelude.{
  ℕ, ◌+◌, Bool, true, false, Option, none, some, String, List, [], ◌∷◌, ◌&&◌, not, ltb, maybe, ◌==◌,
  string_eq, if◌then◌else◌,
}
use compute_sentry.Prelude.Int.{pos, leb_ℤ}
use compute_sentry.Prelude.Float.{quotient, hundredfold, is_at_least, is_above, one_twentieth}
use compute_sentry.Api.{NodeTaintThreshold}
use compute_sentry.Objects.{Pod, annotation}

abbrev pub health_annotation_key : String
health_annotation_key = "compute-sentry.aiguard.io/health"

-- p.Annotations[healthAnnotationKey] == "unhealthy"
unfoldable pub is_unhealthy : Pod → Bool
is_unhealthy pod =
    maybe (annotation health_annotation_key pod) false (λ status. status == "unhealthy")

pub record NodePodsHealthStatus : Type 0 where
  pub total_pods : ℕ
  pub unhealthy_pods : ℕ
  pub healthy_pods : ℕ

-- The loop of `getNodePodsHealthStatus`.
unfoldable pub count_pods : List Pod → NodePodsHealthStatus → NodePodsHealthStatus
count_pods [] status = status
count_pods (pod ∷ pods) status =
    let counted = record status { total_pods = status.total_pods + 1 } in
    count_pods pods (
      if is_unhealthy pod
      then record counted { unhealthy_pods = counted.unhealthy_pods + 1 }
      else record counted { healthy_pods = counted.healthy_pods + 1 })

abbrev pub no_pods : NodePodsHealthStatus
no_pods = record { total_pods = 0; unhealthy_pods = 0; healthy_pods = 0 }

-- The text of the reason, by its format and numbers.
pub data Reason : Type 0 where
  no_change aggressive_taint aggressive_untaint : Reason
  threshold_met threshold_no_longer_met : ℕ → ℕ → Reason

pub record TaintDecision : Type 0 where
  pub should_taint : Bool
  pub should_untaint : Bool
  pub reason : Reason

abbrev pub leave : TaintDecision
leave = record { should_taint = false; should_untaint = false; reason = no_change }

abbrev pub taint_for : Reason → TaintDecision
taint_for reason = record { should_taint = true; should_untaint = false; reason = reason }

abbrev pub untaint_for : Reason → TaintDecision
untaint_for reason = record { should_taint = false; should_untaint = true; reason = reason }

-- status.UnhealthyPods >= int(*threshold.MinUnhealthyPodsCount)
unfoldable pub meets_count : NodeTaintThreshold → NodePodsHealthStatus → Bool
meets_count threshold status =
    maybe threshold.min_unhealthy_pods_count false (λ min. leb_ℤ min (pos status.unhealthy_pods))

-- The test of the percentage, in float64.
unfoldable pub meets_percentage : NodeTaintThreshold → NodePodsHealthStatus → Bool
meets_percentage threshold status = maybe threshold.min_unhealthy_pods_percentage false (λ min.
    ltb 0 status.total_pods
    && is_at_least (hundredfold (quotient status.unhealthy_pods status.total_pods)) min)

-- shouldTaintBasedOnThreshold
unfoldable pub meets_threshold : NodeTaintThreshold → NodePodsHealthStatus → Bool
meets_threshold threshold status =
    if meets_percentage threshold status then true else meets_count threshold status

-- The end of `evaluateNodeTaintDecision`: the policy's threshold, whether the node is tainted, and the
-- count of its pods.
unfoldable pub decide : Option NodeTaintThreshold → Bool → NodePodsHealthStatus → TaintDecision
decide none is_currently_tainted status =
    if ltb 0 status.unhealthy_pods && not is_currently_tainted
    then taint_for aggressive_taint
    else if not (ltb 0 status.unhealthy_pods) && is_currently_tainted
    then untaint_for aggressive_untaint
    else leave
decide (some threshold) is_currently_tainted status =
    if meets_threshold threshold status && not is_currently_tainted
    then taint_for (threshold_met status.unhealthy_pods status.total_pods)
    else if not (meets_threshold threshold status) && is_currently_tainted
    then untaint_for (threshold_no_longer_met status.unhealthy_pods status.total_pods)
    else leave

-- The test of `checkEvictionThrottling` on the numbers of unhealthy and of all pods, with its early
-- return.
unfoldable pub is_throttled : ℕ → ℕ → Bool
is_throttled unhealthy total =
    ltb 0 total && is_above (quotient unhealthy total) one_twentieth && ltb 1 unhealthy
