-- ===== src/Tests/Json.antt =====
-- Runs of encoding/json on configurations.
use compute_sentry.Prelude.{◌≡◌, refl, some, none, select, arith}
use compute_sentry.Prelude.Text.{text_beq}
use compute_sentry.Prelude.Decimal.{decimal, digits}
use compute_sentry.Api.Json.Config.{marshal_config, unmarshal_config, names, decode_int}
use compute_sentry.Api.Codec.{IsRepresentable}
use compute_sentry.Api.Json.RoundTrip.{unmarshal_config-marshal_config}
use compute_sentry.Tests.Codec.{sample_config, sample_text}

marshal_sample : marshal_config sample_config ≡ sample_text
unfolding marshal_config select decimal digits
marshal_sample = refl

unmarshal_sample : unmarshal_config sample_text ≡ some sample_config
unfolding unmarshal_config names text_beq decode_int
unmarshal_sample = refl

-- Keys of another case, a key twice, an unknown one with a value of every kind, null and an empty object.
unmarshal_lenient :
    unmarshal_config
      " {\"thresholdS\" : {\"maxNcclLatencyUs\":500, \"x\":[1,{\"y\":-1.5e3},true,\"\\u12aF\\n\"], \"maxJitterUs\":1,\"maxJitterUs\":100,\"minP2PBandwidthGbps\":20},\"evalConfig\":{\"windowSize\":10,\"errorCountLimit\":1}, \"evalConfig\":{},\"thresholds\":null}"
    ≡ some sample_config
unfolding unmarshal_config names text_beq decode_int
unmarshal_lenient = refl

-- A fraction, a comma before a closing brace, and a number beyond int64.
unmarshal_fraction : unmarshal_config "{\"thresholds\":{\"maxJitterUs\":1.0}}" ≡ none
unfolding unmarshal_config names text_beq decode_int
unmarshal_fraction = refl

unmarshal_comma : unmarshal_config "{\"thresholds\":{},}" ≡ none
unfolding unmarshal_config names text_beq decode_int
unmarshal_comma = refl

unmarshal_beyond : unmarshal_config "{\"evalConfig\":{\"windowSize\":9223372036854775808}}" ≡ none
unfolding unmarshal_config names text_beq decode_int
unmarshal_beyond = refl

sample_fits : IsRepresentable sample_config
sample_fits = record {
  latency = omega arith;
  jitter = omega arith;
  p2p = omega arith;
  hbm = omega arith;
  window = omega arith;
  limit = omega arith;
}

unmarshal_config-marshal_config_example :
    unmarshal_config (marshal_config sample_config) ≡ some sample_config
unmarshal_config-marshal_config_example = unmarshal_config-marshal_config sample_config sample_fits
