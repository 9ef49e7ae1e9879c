-- ===== src/Api/Json/Decoding.antt =====
-- The fields that json.Marshal writes, decoded into an empty struct.
use compute_sentry.Prelude.{
  false, not, Option, some, String, [], ◌∷◌, ◌≡◌, refl, sym, ap, ◌∙◌, arith, select, Bool-cases,
  inl, inr,
}
use compute_sentry.Prelude.Int.{ℤ, pos, int_beq}
use compute_sentry.Prelude.Text.{Text, codes, text_beq}
use compute_sentry.Prelude.Decimal.{decimal}
use compute_sentry.Api.{Thresholds, EvalConfig, GovernanceConfig}
use compute_sentry.Api.Codec.{IsRepresentable}
use compute_sentry.Api.Json.Lexer.{number}
use compute_sentry.Api.Json.Parser.{Json, leaf}
use compute_sentry.Api.Json.Printing.{members_of}
use compute_sentry.Api.Json.Numbers.{decode_int-decimal}
use compute_sentry.Api.Json.Config.{
  Fields, is_set, threshold_fields, eval_config_fields, decode_members, set_threshold,
  set_eval_config, no_thresholds, no_eval_config, names,
}

pub not_set→eq : (n : ℤ) → not (int_beq n (pos 0)) ≡ false → n ≡ pos 0
not_set→eq n h = ground arith

-- The number's JSON value.
abbrev pub literal : ℤ → Json
literal n = leaf (number (codes (decimal n)))

-- A field that is written sets what it names; one that is left out holds 0, as the struct does.
decode_field {ℓ} :
    {A : Type ℓ} (set : Text → Json → A → Option A) (name : String) (n : ℤ) (fields : Fields)
    (a a' : A)
    → set (codes name) (literal n) a ≡ some a'
    → (n ≡ pos 0 → a ≡ a')
    → decode_members set (members_of (select is_set ((name, n) ∷ fields))) a
      ≡ decode_members set (members_of (select is_set fields)) a'
unfolding decode_members members_of select
decode_field set name n fields a a' h zero_kept = elim (Bool-cases (not (int_beq n (pos 0)))) [
  | inl written ↦ rw (written, h) refl
  | inr unset ↦ rw (unset, zero_kept (not_set→eq n unset)) refl
]

module _ (c : GovernanceConfig) (fits : IsRepresentable c) where
  pub decode-thresholds :
      decode_members set_threshold
        (members_of (select is_set (threshold_fields c.thresholds)))
        no_thresholds
      ≡ some c.thresholds
  unfolding set_threshold names text_beq
  decode-thresholds =
      let t = c.thresholds in
      let one : Thresholds = record no_thresholds { max_nccl_latency_us = t.max_nccl_latency_us } in
      let two : Thresholds = record one { max_jitter_us = t.max_jitter_us } in
      let three : Thresholds = record two { min_p2p_bandwidth_gbps = t.min_p2p_bandwidth_gbps } in
      decode_field set_threshold "maxNcclLatencyUs" t.max_nccl_latency_us _ no_thresholds one
        (rw (decode_int-decimal (pos 0) t.max_nccl_latency_us fits.latency) refl)
        (λ e. ap (λ (n : ℤ). record no_thresholds { max_nccl_latency_us = n }) (sym e))
      ∙ decode_field set_threshold "maxJitterUs" t.max_jitter_us _ one two
          (rw (decode_int-decimal (pos 0) t.max_jitter_us fits.jitter) refl)
          (λ e. ap (λ (n : ℤ). record one { max_jitter_us = n }) (sym e))
      ∙ decode_field set_threshold "minP2PBandwidthGbps" t.min_p2p_bandwidth_gbps _ two three
          (rw (decode_int-decimal (pos 0) t.min_p2p_bandwidth_gbps fits.p2p) refl)
          (λ e. ap (λ (n : ℤ). record two { min_p2p_bandwidth_gbps = n }) (sym e))
      ∙ decode_field set_threshold "minHbmBandwidthGbps" t.min_hbm_bandwidth_gbps [] three t
          (rw (decode_int-decimal (pos 0) t.min_hbm_bandwidth_gbps fits.hbm) refl)
          (λ e. ap (λ (n : ℤ). record three { min_hbm_bandwidth_gbps = n }) (sym e))
      ∙ (unfold decode_members members_of select in refl)

  pub decode-eval_config :
      decode_members set_eval_config
        (members_of (select is_set (eval_config_fields c.eval_config)))
        no_eval_config
      ≡ some c.eval_config
  unfolding set_eval_config names text_beq
  decode-eval_config =
      let e = c.eval_config in
      let one : EvalConfig = record no_eval_config { window_size = e.window_size } in
      decode_field set_eval_config "windowSize" e.window_size _ no_eval_config one
        (rw (decode_int-decimal (pos 0) e.window_size fits.window) refl)
        (λ h. ap (λ (n : ℤ). record no_eval_config { window_size = n }) (sym h))
      ∙ decode_field set_eval_config "errorCountLimit" e.error_count_limit [] one e
          (rw (decode_int-decimal (pos 0) e.error_count_limit fits.limit) refl)
          (λ h. ap (λ (n : ℤ). record one { error_count_limit = n }) (sym h))
      ∙ (unfold decode_members members_of select in refl)
