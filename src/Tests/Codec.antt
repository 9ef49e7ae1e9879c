-- ===== src/Tests/Codec.antt =====
-- A configuration and its text.
use compute_sentry.Prelude.{String}
use compute_sentry.Prelude.Int.{pos}
use compute_sentry.Api.{GovernanceConfig}
use compute_sentry.Api.Codec.{Codec}
use compute_sentry.Api.Json.RoundTrip.{json_codec}

abbrev pub sample_config : GovernanceConfig
sample_config = record {
  thresholds = record {
    max_nccl_latency_us = pos 500;
    max_jitter_us = pos 100;
    min_p2p_bandwidth_gbps = pos 20;
    min_hbm_bandwidth_gbps = pos 0;
  };
  eval_config = record { window_size = pos 10; error_count_limit = pos 1 };
}

abbrev pub sample_text : String
sample_text =
    "{\"thresholds\":{\"maxNcclLatencyUs\":500,\"maxJitterUs\":100,\"minP2PBandwidthGbps\":20},\"evalConfig\":{\"windowSize\":10,\"errorCountLimit\":1}}"

abbrev pub sample_codec : Codec
sample_codec = json_codec
