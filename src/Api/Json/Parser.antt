-- ===== src/Api/Json/Parser.antt =====
-- The grammar of JSON on tokens, with encoding/json's limit on how deep values may nest.
use compute_sentry.Prelude.{ℕ, zero, suc, ◌*◌, Option, none, some, List, [], ◌∷◌, length}
use compute_sentry.Prelude.Text.{Text}
use compute_sentry.Api.Json.Lexer.{
  Scalar, text, Token, lbrace, rbrace, lbrack, rbrack, colon, comma, scalar,
}

mutual
  pub data Json : Type 0 where
    leaf : Scalar → Json
    array : Items → Json
    object : Members → Json

  pub data Items : Type 0 where
    no_items : Items
    item : Json → Items → Items

  pub data Members : Type 0 where
    no_members : Members
    member : Text → Json → Members → Members

pub data Parsed {ℓ} (A : Type ℓ) : Type ℓ where
  done : A → List Token → Parsed A
  invalid : Parsed A
  out_of_fuel : Parsed A

module _ {ℓ κ} {A : Type ℓ} {B : Type κ} where
  unfoldable pub and_then : Parsed A → (A → List Token → Parsed B) → Parsed B
  and_then (done a rest) k = k a rest
  and_then invalid k = invalid
  and_then out_of_fuel k = out_of_fuel

-- A value one level further in.
unfoldable pub inside {ℓ} : {A : Type ℓ} → ℕ → (ℕ → Parsed A) → Parsed A
inside zero k = invalid
inside (suc room) k = k room

-- Behind the opening bracket, and behind an element.
unfoldable pub first_items : (List Token → Parsed Items) → List Token → Parsed Items
first_items next (rbrack ∷ ts) = done no_items ts
first_items next ts = next ts

unfoldable pub more_items : (List Token → Parsed Items) → List Token → Parsed Items
more_items next (comma ∷ ts) = next ts
more_items next (rbrack ∷ ts) = done no_items ts
more_items next ts = invalid

unfoldable pub first_members : (List Token → Parsed Members) → List Token → Parsed Members
first_members next (rbrace ∷ ts) = done no_members ts
first_members next ts = next ts

unfoldable pub more_members : (List Token → Parsed Members) → List Token → Parsed Members
more_members next (comma ∷ ts) = next ts
more_members next (rbrace ∷ ts) = done no_members ts
more_members next ts = invalid

-- A key and its colon.
unfoldable pub with_key : (Text → List Token → Parsed Members) → List Token → Parsed Members
with_key k (scalar (text key) ∷ colon ∷ ts) = k key ts
with_key k ts = invalid

-- Each call takes a unit of fuel; `room` is how much deeper a value may nest.
unfoldable mutual
  unfolding and_then inside first_items more_items first_members more_members with_key

  pub parse_value : (fuel room : ℕ) → List Token → Parsed Json
  parse_value zero room ts = out_of_fuel
  parse_value (suc f) room (scalar s ∷ ts) = done (leaf s) ts
  parse_value (suc f) room (lbrack ∷ ts) =
      and_then (inside room (λ r. first_items (parse_items f r) ts)) (λ xs. done (array xs))
  parse_value (suc f) room (lbrace ∷ ts) =
      and_then (inside room (λ r. first_members (parse_members f r) ts)) (λ ms. done (object ms))
  parse_value (suc f) room ts = invalid

  pub parse_items : (fuel room : ℕ) → List Token → Parsed Items
  parse_items zero room ts = out_of_fuel
  parse_items (suc f) room ts =
      and_then (parse_value f room ts)
        (λ v rest. and_then (more_items (parse_items f room) rest) (λ xs. done (item v xs)))

  pub parse_members : (fuel room : ℕ) → List Token → Parsed Members
  parse_members zero room ts = out_of_fuel
  parse_members (suc f) room ts =
      with_key
        (λ key ts'. and_then (parse_value f room ts') (λ v rest.
          and_then (more_members (parse_members f room) rest) (λ ms. done (member key v ms))))
        ts

-- A value, and nothing behind it.
unfoldable pub whole : Parsed Json → Option Json
whole (done v []) = some v
whole _ = none

-- maxNestingDepth of encoding/json
abbrev pub max_nesting_depth : ℕ
max_nesting_depth = 10000

unfoldable pub parse_tokens : List Token → Option Json
unfolding whole parse_value
parse_tokens ts = whole (parse_value (suc (2 * length ts)) max_nesting_depth ts)
