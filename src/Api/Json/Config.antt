-- ===== src/Api/Json/Config.antt =====
-- The text of a `GovernanceConfig`, as json.Marshal writes it and json.Unmarshal reads it under the tags
-- of operator/api/v1/computesentrypolicy_types.go.
use compute_sentry.Prelude.{
  Bool, ◌&&◌, not, ℕ, ◌+◌, ◌-◌, ◌*◌, ◌^◌, Option, none, some, String, List, [], ◌∷◌, map, leb, ltb,
  nat_beq, maybe, if◌then◌else◌, select,
}
use compute_sentry.Prelude.Int.{ℤ, pos, neg, int_beq}
use compute_sentry.Prelude.Text.{Text, codes, text_beq}
use compute_sentry.Prelude.Decimal.{decimal}
use compute_sentry.Api.{Thresholds, EvalConfig, GovernanceConfig}
use compute_sentry.Api.Json.Lexer.{null, number, ready, lex, is_digit}
use compute_sentry.Api.Json.Parser.{Json, leaf, object, Members, no_members, member, parse_tokens}
use Prim.Native.String.{◌++◌ as ◌+++◌}

-- strconv.ParseInt: the digits behind a number that has been read.
unfoldable pub scan_digits : ℕ → Text → Option ℕ
scan_digits n [] = some n
scan_digits n (c ∷ cs) =
    let rest = scan_digits (n * 10 + (c - b'0')) cs in if is_digit c then rest else none

unfoldable pub parse_digits : Text → Option ℕ
unfolding scan_digits
parse_digits [] = none
parse_digits (c ∷ cs) = scan_digits 0 (c ∷ cs)

-- A number literal as an int64; a fraction, an exponent and a number out of range are errors.
unfoldable pub parse_int64 : Text → Option ℤ
unfolding parse_digits
parse_int64 [] = none
parse_int64 (c ∷ cs) =
    if nat_beq c b'-'
    then maybe (parse_digits cs) none (λ n. if leb n (2 ^ 63) then some (neg (pos n)) else none)
    else maybe (parse_digits (c ∷ cs)) none (λ n. if ltb n (2 ^ 63) then some (pos n) else none)

-- A value for an int64 field that holds n: null leaves it.
unfoldable pub decode_int : ℤ → Json → Option ℤ
unfolding parse_int64
decode_int n (leaf null) = some n
decode_int n (leaf (number s)) = parse_int64 s
decode_int n _ = none

-- The case of a letter in a key does not count; two letters beyond ASCII fold to `s` and `k`.
abbrev pub fold : ℕ → ℕ
fold c =
    if leb b'A' c && leb c b'Z'
    then c + 32
    else if nat_beq c 383
    then b's'
    else if nat_beq c 8490
    then b'k'
    else c

unfoldable pub names : Text → String → Bool
names key name = text_beq (map fold key) (map fold (codes name))

-- One member of the object; unknown keys are skipped.
unfoldable pub set_threshold : Text → Json → Thresholds → Option Thresholds
set_threshold key v t =
    if names key "maxNcclLatencyUs"
    then maybe (decode_int t.max_nccl_latency_us v) none
        (λ n. some (record t { max_nccl_latency_us = n }))
    else if names key "maxJitterUs"
    then maybe (decode_int t.max_jitter_us v) none (λ n. some (record t { max_jitter_us = n }))
    else if names key "minP2PBandwidthGbps"
    then maybe (decode_int t.min_p2p_bandwidth_gbps v) none
        (λ n. some (record t { min_p2p_bandwidth_gbps = n }))
    else if names key "minHbmBandwidthGbps"
    then maybe (decode_int t.min_hbm_bandwidth_gbps v) none
        (λ n. some (record t { min_hbm_bandwidth_gbps = n }))
    else some t

unfoldable pub set_eval_config : Text → Json → EvalConfig → Option EvalConfig
set_eval_config key v e =
    if names key "windowSize"
    then maybe (decode_int e.window_size v) none (λ n. some (record e { window_size = n }))
    else if names key "errorCountLimit"
    then maybe (decode_int e.error_count_limit v) none
        (λ n. some (record e { error_count_limit = n }))
    else some e

-- The members of an object in order, into the struct that is there.
unfoldable pub decode_members {ℓ} :
    {A : Type ℓ} → (Text → Json → A → Option A) → Members → A → Option A
decode_members set no_members a = some a
decode_members set (member key v ms) a = maybe (set key v a) none (decode_members set ms)

-- A value for a struct: null leaves it, and anything else that is no object is an error.
unfoldable pub decode_struct {ℓ} : {A : Type ℓ} → (Text → Json → A → Option A) → A → Json → Option A
unfolding decode_members
decode_struct set a (leaf null) = some a
decode_struct set a (object ms) = decode_members set ms a
decode_struct set a _ = none

unfoldable pub set_config : Text → Json → GovernanceConfig → Option GovernanceConfig
set_config key v c =
    if names key "thresholds"
    then maybe (decode_struct set_threshold c.thresholds v) none
        (λ t. some (record c { thresholds = t }))
    else if names key "evalConfig"
    then maybe (decode_struct set_eval_config c.eval_config v) none
        (λ e. some (record c { eval_config = e }))
    else some c

-- `var config configv1.GovernanceConfig`
abbrev pub no_thresholds : Thresholds
no_thresholds = record {
  max_nccl_latency_us = pos 0;
  max_jitter_us = pos 0;
  min_p2p_bandwidth_gbps = pos 0;
  min_hbm_bandwidth_gbps = pos 0;
}

abbrev pub no_eval_config : EvalConfig
no_eval_config = record { window_size = pos 0; error_count_limit = pos 0 }

abbrev pub no_config : GovernanceConfig
no_config = record { thresholds = no_thresholds; eval_config = no_eval_config }

-- json.Unmarshal into a new `GovernanceConfig`
unfoldable pub unmarshal_config : String → Option GovernanceConfig
unfolding lex parse_tokens decode_struct set_config set_threshold set_eval_config
unmarshal_config s =
    maybe (lex ready (codes s)) none
      (λ ts. maybe (parse_tokens ts) none (decode_struct set_config no_config))

abbrev pub Fields : Type 0
Fields = List (String × ℤ)

abbrev pub threshold_fields : Thresholds → Fields
threshold_fields t =
    ("maxNcclLatencyUs", t.max_nccl_latency_us)
    ∷ ("maxJitterUs", t.max_jitter_us)
    ∷ ("minP2PBandwidthGbps", t.min_p2p_bandwidth_gbps)
    ∷ ("minHbmBandwidthGbps", t.min_hbm_bandwidth_gbps)
    ∷ []

abbrev pub eval_config_fields : EvalConfig → Fields
eval_config_fields e = ("windowSize", e.window_size) ∷ ("errorCountLimit", e.error_count_limit) ∷ []

-- omitempty
abbrev pub is_set : String × ℤ → Bool
is_set (name, n) = not (int_beq n (pos 0))

abbrev pub key_text : String → String
key_text name = "\"" +++ name +++ "\":"

-- The text behind a field.
unfoldable pub more_text : Fields → String
more_text [] = "}"
more_text ((name, n) ∷ fields) = "," +++ key_text name +++ decimal n +++ more_text fields

unfoldable pub object_text : Fields → String
unfolding more_text
object_text [] = "{}"
object_text ((name, n) ∷ fields) = "{" +++ key_text name +++ decimal n +++ more_text fields

-- json.Marshal of a `GovernanceConfig`, which never fails.
unfoldable pub marshal_config : GovernanceConfig → String
unfolding object_text
marshal_config c =
    "{"
    +++ key_text "thresholds"
    +++ object_text (select is_set (threshold_fields c.thresholds))
    +++ ","
    +++ key_text "evalConfig"
    +++ object_text (select is_set (eval_config_fields c.eval_config))
    +++ "}"
