-- ===== src/Health/Evicting.antt =====
-- What becomes of an unhealthy pod, with the throttle as a test on whole numbers.
use compute_sentry.Prelude.{◌*◌, Bool, ◌&&◌, List, if◌then◌else◌, ltb, length, tally}
use compute_sentry.Objects.{Pod}
use compute_sentry.Health.Server.{Server, Result, ok, err, Action, pure, ◌>>=◌}
use compute_sentry.Health.{is_unhealthy, evict_pod, Outcome, done, requeue_after}

module _ (s : Server) (clientset : Bool) where
  -- By the numbers of the pods that the policy selects: more than one of them, and more than a
  -- twentieth, are marked unhealthy.
  abbrev pub is_put_off : List Pod → Bool
  is_put_off pods =
      ltb (length pods) (20 * tally is_unhealthy pods) && ltb 1 (tally is_unhealthy pods)

  -- What the list of the selected pods makes of an unhealthy pod.
  abbrev pub answered : Result (List Pod) → Pod → Action s.World Outcome
  answered (err e) pod = pure (requeue_after 60)
  answered (ok pods) pod =
      if is_put_off pods
      then pure (requeue_after 60)
      else (evict_pod s clientset pod >>= λ _. pure done)
