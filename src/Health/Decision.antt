-- ===== src/Health/Decision.antt =====
-- What the count of a node's pods and the decision on its taint come to.
use compute_sentry.Prelude.{
  ◌+◌, Bool, Option, none, some, List, [], ◌∷◌, ◌≡◌, refl, ltb, arith, if◌then◌else◌, length, tally,
  exists,
}
use compute_sentry.Api.{NodeTaintThreshold}
use compute_sentry.Objects.{Pod}
use compute_sentry.Health.{is_unhealthy, NodePodsHealthStatus, count_pods, no_pods, meets_threshold}

count_pods-from :
    (pods : List Pod) (s : NodePodsHealthStatus)
    → ((count_pods pods s).total_pods ≡ s.total_pods + length pods)
      × ((count_pods pods s).unhealthy_pods ≡ s.unhealthy_pods + tally is_unhealthy pods)
      × ((count_pods pods s).total_pods + s.unhealthy_pods + s.healthy_pods
          ≡ s.total_pods + (count_pods pods s).unhealthy_pods + (count_pods pods s).healthy_pods)
unfolding count_pods tally
count_pods-from [] s = omega arith
count_pods-from (pod ∷ pods) s = ground (
  arith,
  count_pods-from pods (
      let counted = record s { total_pods = s.total_pods + 1 } in
      if is_unhealthy pod
      then record counted { unhealthy_pods = counted.unhealthy_pods + 1 }
      else record counted { healthy_pods = counted.healthy_pods + 1 }),
)

-- The status of a node counts each of its pods once: all of them, those marked unhealthy, and the
-- others.
pub count_pods_lem :
    (pods : List Pod)
    → ((count_pods pods no_pods).total_pods ≡ length pods)
      × ((count_pods pods no_pods).unhealthy_pods ≡ tally is_unhealthy pods)
      × ((count_pods pods no_pods).unhealthy_pods + (count_pods pods no_pods).healthy_pods
          ≡ length pods)
count_pods_lem pods = omega (arith, count_pods-from pods no_pods)

exists-tally {ℓ} : {A : Type ℓ} (p : A → Bool) (xs : List A) → exists p xs ≡ ltb 0 (tally p xs)
unfolding exists tally
exists-tally p [] = refl
exists-tally p (x ∷ xs) = ground (arith, exists-tally p xs)

-- Whether a node with such pods is to be tainted: by the threshold, or if any pod is unhealthy.
abbrev pub wants_taint : Option NodeTaintThreshold → NodePodsHealthStatus → Bool
wants_taint none status = ltb 0 status.unhealthy_pods
wants_taint (some threshold) status = meets_threshold threshold status

-- Without a threshold a node is to be tainted exactly if one of its pods is marked unhealthy.
pub wants_taint-default :
    (pods : List Pod) → wants_taint none (count_pods pods no_pods) ≡ exists is_unhealthy pods
wants_taint-default pods = ground (arith, exists-tally is_unhealthy pods, count_pods_lem pods)
