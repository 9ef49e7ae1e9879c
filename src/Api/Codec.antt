-- ===== src/Api/Codec.antt =====
-- What the program relies on of the JSON form of a `GovernanceConfig`.
use compute_sentry.Prelude.{◌≡◌, Option, some, String}
use compute_sentry.Prelude.Int.{IsInt64}
use compute_sentry.Api.{GovernanceConfig}

-- The fields are int64.
pub record IsRepresentable (c : GovernanceConfig) : Type 0 where
  pub latency : IsInt64 c.thresholds.max_nccl_latency_us
  pub jitter : IsInt64 c.thresholds.max_jitter_us
  pub p2p : IsInt64 c.thresholds.min_p2p_bandwidth_gbps
  pub hbm : IsInt64 c.thresholds.min_hbm_bandwidth_gbps
  pub window : IsInt64 c.eval_config.window_size
  pub limit : IsInt64 c.eval_config.error_count_limit

-- json.Marshal and json.Unmarshal at this type; `none` is an error.
pub record Codec : Type 0 where
  pub marshal : GovernanceConfig → Option String
  pub unmarshal : String → Option GovernanceConfig
  pub round_trip :
      (c : GovernanceConfig) (s : String)
      → IsRepresentable c
      → marshal c ≡ some s
      → unmarshal s ≡ some c
