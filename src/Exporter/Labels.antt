-- ===== src/Exporter/Labels.antt =====
-- The runtime GPU model, as the exporter reads it from its buffer.
use compute_sentry.Prelude.{
  ℕ, zero, suc, List, [], ◌∷◌, ◌≡◌, ◌↔◌, refl, ap, sym, ◌∙◌, arith, All, drop,
}
use compute_sentry.Prelude.Text.{text_eq, until_nul, text_beq, text_beq_iff}
use compute_sentry.Exporter.{trim_right_nul}

-- What stands from the first NUL on.
abbrev pub from_nul : List ℕ → List ℕ
from_nul [] = []
from_nul (zero ∷ bs) = zero ∷ bs
from_nul (suc b ∷ bs) = from_nul bs

abbrev pub IsZeros : List ℕ → Type 0
IsZeros = All (λ b. b ≡ 0)

trim_of_zeros : (bs : List ℕ) → IsZeros bs → trim_right_nul bs ≡ []
unfolding trim_right_nul text_beq
trim_of_zeros [] h = refl
trim_of_zeros (b ∷ bs) h = ground (arith, trim_of_zeros bs h.1)

trim_right_nul-IsZeros : (bs : List ℕ) → trim_right_nul bs ≡ [] → IsZeros bs
unfolding trim_right_nul text_beq
trim_right_nul-IsZeros [] h = tt
trim_right_nul-IsZeros (b ∷ bs) h =
    ground (arith, trim_right_nul-IsZeros bs, text_beq_iff (trim_right_nul bs) [])

trim-suc : (b : ℕ) (bs : List ℕ) → trim_right_nul (suc b ∷ bs) ≡ suc b ∷ trim_right_nul bs
unfolding trim_right_nul
trim-suc b bs = ground arith

-- The exporter's reading of a buffer, which cuts the NULs at its end, is the evaluator's, which cuts
-- at the first NUL, exactly where nothing but NULs follows the first one.
pub trim_right_nul-until_nul :
    (bs : List ℕ) → (trim_right_nul bs ≡ until_nul bs) ↔ IsZeros (from_nul bs)
unfolding until_nul
trim_right_nul-until_nul [] = (λ _. tt, λ _. unfold trim_right_nul in refl)
trim_right_nul-until_nul (zero ∷ bs) =
    (trim_right_nul-IsZeros (zero ∷ bs), trim_of_zeros (zero ∷ bs))
trim_right_nul-until_nul (suc b ∷ bs) =
    let (only_if, if_) = trim_right_nul-until_nul bs in
    (
      λ h. only_if (ap (drop 1) (sym (trim-suc b bs) ∙ h)),
      λ h. trim-suc b bs ∙ ap (λ cs. suc b ∷ cs) (if_ h),
    )
