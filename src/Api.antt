-- ===== src/Api.antt =====
-- The policy resource of operator/api/v1/computesentrypolicy_types.go, and the JSON form of the
-- configuration that the operator hands to the agent.
pub mod Codec
pub mod Json
use compute_sentry.Prelude.{Bool, Option, String, List}
use compute_sentry.Prelude.Int.{ℤ}

pub record Thresholds : Type 0 where
  pub max_nccl_latency_us : ℤ
  pub max_jitter_us : ℤ
  pub min_p2p_bandwidth_gbps : ℤ
  pub min_hbm_bandwidth_gbps : ℤ

pub record EvalConfig : Type 0 where
  pub window_size : ℤ
  pub error_count_limit : ℤ

pub record GovernanceConfig : Type 0 where
  pub thresholds : Thresholds
  pub eval_config : EvalConfig

pub record SpyConfig : Type 0 where
  pub enabled : Bool

-- The two fields are `*int32`: `none` is nil.
pub record NodeTaintThreshold : Type 0 where
  pub min_unhealthy_pods_count : Option ℤ
  pub min_unhealthy_pods_percentage : Option ℤ

pub record Actions : Type 0 where
  pub enable_taint : Bool
  pub enable_evict : Bool
  pub node_taint_threshold : Option NodeTaintThreshold

-- `Selector` stands for metav1.LabelSelector, which the code hands to its library unread.
pub record ComputeSentryPolicySpec (Selector : Type 0) : Type 0 where
  pub selector : Selector
  pub spy_config : SpyConfig
  pub thresholds : Thresholds
  pub eval_config : EvalConfig
  pub actions : Actions

-- Of the metadata the code reads the name only, for its log; it never reads the status.
pub record ComputeSentryPolicy (Selector : Type 0) : Type 0 where
  pub name : String
  pub spec : ComputeSentryPolicySpec Selector

pub record ComputeSentryPolicyList (Selector : Type 0) : Type 0 where
  pub items : List (ComputeSentryPolicy Selector)
