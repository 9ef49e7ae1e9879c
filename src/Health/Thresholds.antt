-- ===== src/Health/Thresholds.antt =====
-- When a node with certain pods is tainted or untainted, in whole numbers.
use compute_sentry.Prelude.{
  ℕ, ◌*◌, ◌^◌, ◌≤◌, ◌<◌, Bool, true, false, Option, none, some, List, ◌≡◌, ◌≢◌, refl, sym, ◌&&◌,
  ◌||◌, not, ltb, leb, arith, if◌then◌else◌, length, tally, tally-le-length, maybe,
}
use compute_sentry.Prelude.Int.{ℤ, pos, leb_ℤ}
use compute_sentry.Api.{NodeTaintThreshold}
use compute_sentry.Objects.{Pod}
use compute_sentry.Health.{
  is_unhealthy, NodePodsHealthStatus, count_pods, no_pods, meets_count, meets_percentage,
  meets_threshold, decide,
}
use compute_sentry.Health.Decision.{count_pods_lem}
use compute_sentry.Health.Percentage.{meets_percentage_lem}

-- What a policy can ask for: a number of unhealthy pods, and a percentage.
pub record Rule : Type 0 where
  pub count : Option ℤ
  pub percentage : Option ℕ

abbrev pub threshold_of : Option Rule → Option NodeTaintThreshold
threshold_of none = none
threshold_of (some rule) = some (record {
  min_unhealthy_pods_count = rule.count;
  min_unhealthy_pods_percentage = maybe rule.percentage none (λ p. some (pos p));
})

-- Whether so many unhealthy pods of all are enough: any, or the number or the percentage of the rule.
abbrev pub are_enough : Option Rule → ℕ → ℕ → Bool
are_enough none unhealthy total = ltb 0 unhealthy
are_enough (some rule) unhealthy total =
    maybe rule.count false (λ min. leb_ℤ min (pos unhealthy))
    || maybe rule.percentage false (λ p. ltb 0 total && leb (p * total) (100 * unhealthy))

-- The unhealthy pods are not exactly the percentage.
abbrev pub IsApart : Option Rule → ℕ → ℕ → Type 0
IsApart none unhealthy total = Unit
IsApart (some rule) unhealthy total = maybe rule.percentage Unit (λ p. 100 * unhealthy ≢ p * total)

true_if_or : (a b : Bool) → (if a then true else b) ≡ (b || a)
true_if_or a b = ground arith

meets_threshold_lem :
    (count : Option ℤ) (percentage : Option ℕ) (status : NodePodsHealthStatus)
    → status.unhealthy_pods ≤ status.total_pods
    → status.total_pods < 2 ^ 40
    → IsApart
        (some (record { count = count; percentage = percentage }))
        status.unhealthy_pods
        status.total_pods
    → meets_threshold
        (record {
          min_unhealthy_pods_count = count;
          min_unhealthy_pods_percentage = maybe percentage none (λ p. some (pos p));
        })
        status
      ≡ are_enough
          (some (record { count = count; percentage = percentage }))
          status.unhealthy_pods
          status.total_pods
unfolding meets_threshold meets_count meets_percentage
meets_threshold_lem count none status part few apart =
    true_if_or false (maybe count false (λ min. leb_ℤ min (pos status.unhealthy_pods)))
meets_threshold_lem count (some p) status part few apart =
    let test =
      meets_percentage_lem
        (record { min_unhealthy_pods_count = count; min_unhealthy_pods_percentage = some (pos p) })
        status p refl part few apart in
    rw test (true_if_or _ (maybe count false (λ min. leb_ℤ min (pos status.unhealthy_pods))))

decide_from :
    (rule : Option Rule) (tainted : Bool) (status : NodePodsHealthStatus)
    → status.unhealthy_pods ≤ status.total_pods
    → status.total_pods < 2 ^ 40
    → IsApart rule status.unhealthy_pods status.total_pods
    → ((decide (threshold_of rule) tainted status).should_taint
        ≡ (not tainted && are_enough rule status.unhealthy_pods status.total_pods))
      × ((decide (threshold_of rule) tainted status).should_untaint
          ≡ (tainted && not (are_enough rule status.unhealthy_pods status.total_pods)))
unfolding decide
decide_from none tainted status part few apart = ground arith
decide_from (some rule) tainted status part few apart =
    rw (sym (meets_threshold_lem rule.count rule.percentage status part few apart)) (ground arith)

-- The decision on a node, in whole numbers: it is tainted if it is not yet and enough of its pods are
-- marked unhealthy, and untainted if it is tainted and they are not enough, and neither is asked for
-- otherwise. Enough is any where the policy names no threshold, else the threshold's number or more, or
-- the threshold's percentage of all the node's pods or more. There are fewer than 2^40 pods, the
-- percentage is not negative, and the unhealthy pods are not exactly the percentage, where the float64 test may go wrong.
pub decide_lem :
    (rule : Option Rule) (tainted : Bool) (pods : List Pod)
    → length pods < 2 ^ 40
    → IsApart rule (tally is_unhealthy pods) (length pods)
    → ((decide (threshold_of rule) tainted (count_pods pods no_pods)).should_taint
        ≡ (not tainted && are_enough rule (tally is_unhealthy pods) (length pods)))
      × ((decide (threshold_of rule) tainted (count_pods pods no_pods)).should_untaint
          ≡ (tainted && not (are_enough rule (tally is_unhealthy pods) (length pods))))
decide_lem rule tainted pods few apart =
    let counted = count_pods_lem pods in
    let status = count_pods pods no_pods in
    let apart_counted : IsApart rule status.unhealthy_pods status.total_pods =
      rw (counted.0, counted.1) apart in
    rw (sym counted.0, sym counted.1)
      (decide_from rule tainted status
        (omega (arith, counted.0, counted.1, tally-le-length is_unhealthy pods))
        (omega (arith, counted.0, few)) apart_counted)
