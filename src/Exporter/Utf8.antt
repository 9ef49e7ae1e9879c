-- ===== src/Exporter/Utf8.antt =====
-- utf8.ValidString on bytes, which the Prometheus client asks of each label value.
use compute_sentry.Prelude.{
  ℕ, Bool, true, false, ◌&&◌, Option, none, some, List, [], ◌∷◌, leb, ltb, nat_beq, maybe,
  if◌then◌else◌,
}
use compute_sentry.Prelude.Text.{Text}

-- The bytes that may come next, from the first to the last.
abbrev pub Range : Type 0
Range = ℕ × ℕ

abbrev pub is_in : Range → ℕ → Bool
is_in (low, high) b = leb low b && leb b high

-- 0x80 to 0xBF
abbrev pub continuation : Range
continuation = (128, 191)

-- What has to follow a first byte; `none` where it is no first byte.
unfoldable pub follow : ℕ → Option (List Range)
follow b =
    if ltb b 128
    then some []
    else if is_in (194, 223) b
    then some (continuation ∷ [])
    else if nat_beq b 224
    then some ((160, 191) ∷ continuation ∷ [])
    else if nat_beq b 237
    then some ((128, 159) ∷ continuation ∷ [])
    else if is_in (225, 239) b
    then some (continuation ∷ continuation ∷ [])
    else if nat_beq b 240
    then some ((144, 191) ∷ continuation ∷ continuation ∷ [])
    else if is_in (241, 243) b
    then some (continuation ∷ continuation ∷ continuation ∷ [])
    else if nat_beq b 244
    then some ((128, 143) ∷ continuation ∷ continuation ∷ [])
    else none

unfoldable pub is_utf8_from : List Range → Text → Bool
unfolding follow
is_utf8_from [] [] = true
is_utf8_from (r ∷ rs) [] = false
is_utf8_from [] (b ∷ bs) = maybe (follow b) false (λ rs. is_utf8_from rs bs)
is_utf8_from (r ∷ rs) (b ∷ bs) = let rest = is_utf8_from rs bs in if is_in r b then rest else false

abbrev pub is_utf8 : Text → Bool
is_utf8 = is_utf8_from []
