-- ===== src/Api/Json/RoundTrip.antt =====
-- json.Unmarshal of what json.Marshal writes.
use compute_sentry.Prelude.{
  ℕ, zero, suc, ◌+◌, ◌*◌, ◌≤◌, ◌<◌, true, not, Option, some, String, List, [], ◌∷◌, ◌++◌, ◌≡◌, ◌≢◌,
  refl, sym, ap, ◌∙◌, arith, All, length, append_nil, select, length-select, length-append,
  tally-le-length, Bool-cases, inl, inr,
}
use mathlib.Core.Option.{some-injective}
use compute_sentry.Prelude.Int.{ℤ, pos, int_beq}
use compute_sentry.Prelude.Text.{codes, text_beq}
use compute_sentry.Prelude.Decimal.Digits.{codes-append}
use compute_sentry.Api.{GovernanceConfig}
use compute_sentry.Api.Codec.{IsRepresentable, Codec}
use compute_sentry.Api.Json.Lexer.{
  Token, scalar, text, lbrace, rbrace, comma, colon, ready, lex_step, start, lex, lex_end,
}
use compute_sentry.Api.Json.Parser.{
  object, Members, no_members, member, done, parse_value, parse_members, and_then, inside,
  first_members, more_members, with_key, parse_tokens, whole,
}
use compute_sentry.Api.Json.Lexing.{Reads, Reads-nil, Reads-cons, Reads-append, IsPlain}
use compute_sentry.Api.Json.Printing.{
  IsWritten, object_tokens, members_of, Reads-key, Reads-object, parse_object,
}
use compute_sentry.Api.Json.Decoding.{decode-thresholds, decode-eval_config}
use compute_sentry.Api.Json.Config.{
  Fields, key_text, object_text, is_set, threshold_fields, eval_config_fields, marshal_config,
  unmarshal_config, decode_members, decode_struct, set_config, no_config, names,
}
use Prim.Native.String.{◌++◌ as ◌+++◌}

-- Names that need no escape.
abbrev HasPlainNames : Fields → Type 0
HasPlainNames = All (λ f. All IsPlain (codes f.0))

is_set→ne : (n : ℤ) → not (int_beq n (pos 0)) ≡ true → n ≢ pos 0
is_set→ne n h e = ground arith

select-IsWritten : (fields : Fields) → HasPlainNames fields → All IsWritten (select is_set fields)
unfolding select
select-IsWritten [] h = tt
select-IsWritten ((name, n) ∷ fields) h = elim (Bool-cases (not (int_beq n (pos 0)))) [
  | inl set ↦ rw set ((h.0, is_set→ne n set), select-IsWritten fields h.1)
  | inr unset ↦ rw unset (select-IsWritten fields h.1)
]

abbrev written_thresholds : GovernanceConfig → Fields
written_thresholds c = select is_set (threshold_fields c.thresholds)

abbrev written_eval_config : GovernanceConfig → Fields
written_eval_config c = select is_set (eval_config_fields c.eval_config)

config_tokens : Fields → Fields → List Token
config_tokens ts es =
    lbrace ∷ scalar (text (codes "thresholds")) ∷ colon ∷ object_tokens ts
    ++ (comma ∷ scalar (text (codes "evalConfig")) ∷ colon ∷ object_tokens es ++ (rbrace ∷ []))

-- The text of a configuration is read to these tokens.
Reads-config :
    (c : GovernanceConfig)
    → Reads ready
        (codes (marshal_config c))
        ready
        (config_tokens (written_thresholds c) (written_eval_config c))
unfolding marshal_config config_tokens lex_step start
Reads-config c =
    rw
      (
        codes-append "{" (
            key_text "thresholds"
            +++ object_text (written_thresholds c)
            +++ ","
            +++ key_text "evalConfig"
            +++ object_text (written_eval_config c)
            +++ "}"),
        codes-append (key_text "thresholds") (
            object_text (written_thresholds c)
            +++ ","
            +++ key_text "evalConfig"
            +++ object_text (written_eval_config c)
            +++ "}"),
        codes-append (object_text (written_thresholds c))
            ("," +++ key_text "evalConfig" +++ object_text (written_eval_config c) +++ "}"),
        codes-append "," (key_text "evalConfig" +++ object_text (written_eval_config c) +++ "}"),
        codes-append (key_text "evalConfig") (object_text (written_eval_config c) +++ "}"),
        codes-append (object_text (written_eval_config c)) "}",
      )
      (Reads-cons b'{' _ (lbrace ∷ []) _ refl (
        Reads-append (codes (key_text "thresholds")) _ _ _ (Reads-key "thresholds" (omega arith)) (
          Reads-append (codes (object_text (written_thresholds c))) _ _ _
            (Reads-object (written_thresholds c)
              (select-IsWritten (threshold_fields c.thresholds) (omega arith)))
            (Reads-cons b',' _ (comma ∷ []) _ refl (
              Reads-append (codes (key_text "evalConfig")) _ _ _
                (Reads-key "evalConfig" (omega arith))
                (Reads-append (codes (object_text (written_eval_config c))) _ _ _
                  (Reads-object (written_eval_config c)
                    (select-IsWritten (eval_config_fields c.eval_config) (omega arith)))
                  (Reads-cons b'}' [] (rbrace ∷ []) [] refl (Reads-nil ready))))))))

lex-config :
    (c : GovernanceConfig)
    → lex ready (codes (marshal_config c))
      ≡ some (config_tokens (written_thresholds c) (written_eval_config c))
lex-config c =
    ap (lex ready) (sym (append_nil (codes (marshal_config c))))
    ∙ (Reads-config c).reads []
    ∙ (unfold lex lex_end in
        ap some (append_nil (config_tokens (written_thresholds c) (written_eval_config c))))

config_members : Fields → Fields → Members
config_members ts es =
    member (codes "thresholds") (object (members_of ts))
      (member (codes "evalConfig") (object (members_of es)) no_members)

parse-config :
    (f room : ℕ) (ts es : Fields)
    → length ts + 4 < f
    → length es + 4 < f
    → parse_value f (suc (suc room)) (config_tokens ts es) ≡ done (object (config_members ts es)) []
unfolding parse_value parse_members and_then inside first_members more_members with_key
    config_tokens config_members
parse-config zero room ts es h k = absurd (omega (arith, h))
parse-config (suc zero) room ts es h k = absurd (omega (arith, h))
parse-config (suc (suc zero)) room ts es h k = absurd (omega (arith, h))
parse-config (suc (suc (suc f))) room ts es h k =
    rw
      (
        parse_object (suc f) room ts
            (comma ∷ scalar (text (codes "evalConfig")) ∷ colon ∷ object_tokens es ++ (rbrace ∷ []))
            (omega (arith, h)),
        parse_object f room es (rbrace ∷ []) (omega (arith, k)),
      )
      refl

length-config_tokens : (ts es : Fields) → 7 ≤ length (config_tokens ts es)
unfolding config_tokens
length-config_tokens ts es = omega (
  arith,
  length-append (object_tokens ts)
      (comma ∷ scalar (text (codes "evalConfig")) ∷ colon ∷ object_tokens es ++ (rbrace ∷ [])),
  length-append (object_tokens es) (rbrace ∷ []),
)

length-written : (fields : Fields) → length (select is_set fields) ≤ length fields
length-written fields = omega (arith, length-select is_set fields, tally-le-length is_set fields)

parse_tokens-config :
    (ts es : Fields)
    → length ts ≤ 4
    → length es ≤ 4
    → parse_tokens (config_tokens ts es) ≡ some (object (config_members ts es))
unfolding parse_tokens whole
parse_tokens-config ts es h k =
    rw
      (parse-config (suc (2 * length (config_tokens ts es))) 9998 ts es
        (omega (arith, h, length-config_tokens ts es))
        (omega (arith, k, length-config_tokens ts es)))
      refl

decode-config :
    (c : GovernanceConfig)
    → IsRepresentable c
    → decode_struct set_config no_config
        (object (config_members (written_thresholds c) (written_eval_config c)))
      ≡ some c
unfolding decode_struct decode_members set_config config_members names text_beq
decode-config c fits = rw (decode-thresholds c fits, decode-eval_config c fits) refl

-- A configuration comes back from its text.
pub unmarshal_config-marshal_config :
    (c : GovernanceConfig) → IsRepresentable c → unmarshal_config (marshal_config c) ≡ some c
unfolding unmarshal_config
unmarshal_config-marshal_config c fits =
    rw
      (
        lex-config c,
        parse_tokens-config (written_thresholds c) (written_eval_config c)
            (length-written (threshold_fields c.thresholds))
            (omega (arith, length-written (eval_config_fields c.eval_config))),
      )
      (decode-config c fits)

pub marshal_config-round_trip :
    (c : GovernanceConfig) (s : String)
    → IsRepresentable c
    → ◌≡◌ {A = Option String} (some (marshal_config c)) (some s)
    → unmarshal_config s ≡ some c
marshal_config-round_trip c s fits h =
    rw (sym (some-injective (marshal_config c) s h)) (unmarshal_config-marshal_config c fits)

-- encoding/json as the codec of the other parts.
unfoldable pub json_codec : Codec
unfolding marshal_config unmarshal_config
json_codec = record {
  marshal = λ c. some (marshal_config c);
  unmarshal = unmarshal_config;
  round_trip = marshal_config-round_trip;
}
