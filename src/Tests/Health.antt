-- ===== src/Tests/Health.antt =====
-- The health controller on a cluster with one node.
use compute_sentry.Prelude.{
  not, tally, List, select, ◌*◌, Bool, true, false, ◌&&◌, Option, none, some, String, [], ◌∷◌, ◌≡◌,
  ◌≢◌, refl, arith, ltb, leb, exists, string_eq,
}
use compute_sentry.Prelude.Int.{pos}
use compute_sentry.Prelude.Float.{quotient, hundredfold, is_at_least}
use compute_sentry.Prelude.Text.{Text, codes, text_eq, text_beq}
use compute_sentry.Prelude.Map
use compute_sentry.Api.{ComputeSentryPolicy, NodeTaintThreshold}
use compute_sentry.Objects.{Pod, Node, Taint, annotation}
use compute_sentry.Health.Server.{
  Action, pure, Result, err, ok, read, write, written, attempt, unless_error, ◌>>=◌,
}
use compute_sentry.Health.{
  reconcile_read, reconcile_pod, find_matching_policy, act_on_policy, remediate,
  evaluate_node_taint_decision, get_node_pods_health_status, apply_decision, evict_if_unhealthy,
  done, Outcome, is_unhealthy, count_pods, no_pods, decide, is_throttled, is_tainted,
  no_schedule_taint, add_taint, taint_node, reconcile, first_matching, meets_percentage,
}
use compute_sentry.Health.Thresholds.{Rule, threshold_of, are_enough, decide_lem}
use compute_sentry.Health.Decision.{wants_taint}
use compute_sentry.Health.Remediation.{reconcile-taints}
use compute_sentry.Health.Throttle.{is_throttled_lem}
use compute_sentry.Health.Percentage.{meets_percentage_lem}
use compute_sentry.Health.Tainting.{IsTaintedNow}
use compute_sentry.Health.Lasting.{ends, reconciles, Rounds-last}
use compute_sentry.Health.Evictions.{may_evict, reconcile-spares}
use compute_sentry.Tests.Cluster.{
  Cluster, one_node, one_node-MergePatch, one_node-NodeNames, one_node-Eviction,
}
use compute_sentry.Tests.Codec.{sample_config}

abbrev node_a : Text
node_a = codes "node-a"

abbrev training : Text
training = codes "training"

abbrev worker : Text → String → Pod
worker name status = record {
  name = name;
  namespace = training;
  labels = [];
  annotations = some (("compute-sentry.aiguard.io/health", status) ∷ []);
  spec = record { node_name = node_a; containers = []; init_containers = []; volumes = [] };
}

abbrev slow : Pod
slow = worker (codes "slow") "unhealthy"

abbrev fast : Pod
fast = worker (codes "fast") "healthy"

abbrev policy : (taint evict : Bool) → ComputeSentryPolicy (Option Bool)
policy taint evict = record {
  name = "policy";
  spec = record {
    selector = some true;
    spy_config = record { enabled = true };
    thresholds = sample_config.thresholds;
    eval_config = sample_config.eval_config;
    actions = record { enable_taint = taint; enable_evict = evict; node_taint_threshold = none };
  };
}

abbrev dedicated : Taint
dedicated = record { key = "dedicated"; value = "gpu"; effect = "NoSchedule" }

abbrev clean_node : Node
clean_node = record { name = node_a; labels = []; taints = dedicated ∷ [] }

abbrev tainted_node : Node
tainted_node = record { name = node_a; labels = []; taints = dedicated ∷ no_schedule_taint ∷ [] }

abbrev cluster : Node → Bool → Cluster
cluster node evict = record {
  node = node;
  pods = slow ∷ fast ∷ [];
  policies = policy true evict ∷ [];
}

-- A third of the pods, of which one is marked unhealthy.
abbrev a_third : Option Rule
a_third = some (record { count = some (pos 2); percentage = some 30 })

one_marked : tally is_unhealthy (slow ∷ fast ∷ fast ∷ []) ≡ 1
unfolding tally is_unhealthy annotation Map.lookup
one_marked = refl

decide_lem_example :
    ((decide
        (threshold_of a_third)
        false
        (count_pods (slow ∷ fast ∷ fast ∷ []) no_pods)).should_taint
      ≡ (not false && are_enough a_third (tally is_unhealthy (slow ∷ fast ∷ fast ∷ [])) 3))
    × ((decide
          (threshold_of a_third)
          false
          (count_pods (slow ∷ fast ∷ fast ∷ []) no_pods)).should_untaint
        ≡ (false && not (are_enough a_third (tally is_unhealthy (slow ∷ fast ∷ fast ∷ [])) 3)))
decide_lem_example =
    decide_lem a_third false (slow ∷ fast ∷ fast ∷ []) (omega arith)
      (λ h. omega (arith, h, one_marked))

is_throttled_lem_example : is_throttled 2 30 ≡ (ltb 30 (20 * 2) && ltb 1 2)
is_throttled_lem_example = is_throttled_lem 2 30 (omega arith) (omega arith)

node_a-ne-nil : node_a ≢ []
node_a-ne-nil h = cc

tainted_by_us : is_tainted tainted_node ≡ true
unfolding is_tainted exists
tainted_by_us = refl

no_eviction :
    may_evict slow (first_matching one_node.matches slow.labels (policy true false ∷ [])) ≡ false
unfolding first_matching is_unhealthy annotation Map.lookup
no_eviction = refl

reconcile-spares_example :
    one_node.list_pods_on node_a
      (reconcile one_node true training (codes "slow") (cluster clean_node false)).1
    ≡ one_node.list_pods_on node_a (cluster clean_node false)
reconcile-spares_example =
    reconcile-spares one_node one_node-MergePatch true node_a
      (one_node.list_pods_on node_a (cluster clean_node false)) training (codes "slow") slow
      (policy true false ∷ []) (cluster clean_node false) (unfold text_beq in refl) refl no_eviction
      refl

wants : wants_taint none (count_pods (slow ∷ fast ∷ []) no_pods) ≡ true
unfolding count_pods is_unhealthy annotation Map.lookup
wants = refl

abbrev unevicted : Action Cluster Outcome
unevicted = reconcile one_node true training (codes "slow")

ends_well : (unevicted (cluster clean_node false)).0 ≡ ok done
unfolding reconcile reconcile_read reconcile_pod find_matching_policy first_matching act_on_policy
    remediate evaluate_node_taint_decision get_node_pods_health_status count_pods decide
    apply_decision taint_node add_taint is_tainted evict_if_unhealthy is_unhealthy annotation
    Map.lookup attempt read write written pure unless_error ◌>>=◌ exists select text_beq
ends_well = refl

reconcile-taints_example :
    IsTaintedNow one_node one_node-MergePatch node_a clean_node refl
      (unevicted (cluster clean_node false)).1
reconcile-taints_example =
    reconcile-taints one_node one_node-MergePatch one_node-Eviction true node_a clean_node refl
      node_a-ne-nil training (codes "slow") slow (policy true false ∷ []) (policy true false)
      (slow ∷ fast ∷ []) (cluster clean_node false) done (unfold text_beq in refl) refl
      (unfold first_matching in refl) refl refl (unfold text_beq in refl)
      (unfold select text_beq in refl) wants ends_well

abbrev listed : Result (List Pod) → List Pod
listed (ok pods) = pods
listed (err e) = []

-- In float64, 29 of 100 are less than 29 percent.
percentage_rounds_down : is_at_least (hundredfold (quotient 29 100)) (pos 29) ≡ false
unfolding hundredfold quotient is_at_least
percentage_rounds_down = refl

abbrev half : NodeTaintThreshold
half = record { min_unhealthy_pods_count = none; min_unhealthy_pods_percentage = some (pos 50) }

-- Two of three pods.
meets_percentage_lem_example :
    meets_percentage half (record { total_pods = 3; unhealthy_pods = 2; healthy_pods = 1 })
    ≡ (ltb 0 3 && leb (50 * 3) (100 * 2))
meets_percentage_lem_example =
    meets_percentage_lem half (record { total_pods = 3; unhealthy_pods = 2; healthy_pods = 1 }) 50
      refl (omega arith) (omega arith) (omega arith)

-- Reconcile for the healthy pod of the node, and once more.
abbrev once : Cluster
once = (reconcile one_node true training (codes "fast") (cluster tainted_node true)).1

abbrev twice : Cluster
twice = (reconcile one_node true training (codes "fast") once).1

Rounds-last_example : one_node.get_node node_a twice ≡ ok tainted_node
Rounds-last_example =
    Rounds-last one_node one_node-MergePatch one_node-NodeNames one_node-Eviction true node_a
      tainted_node refl tainted_by_us (cluster tainted_node true) twice
      (reconciles training (codes "fast") (cluster tainted_node true) twice
        (reconciles training (codes "fast") once twice (ends twice)))
      (unfold text_beq in refl)
