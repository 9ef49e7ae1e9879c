-- ===== src/Prelude/Decimal/Digits.antt =====
-- The digits of a number, from the last one.
use compute_sentry.Prelude.Tests.{ltb, Bool-cases, ltb→lt, le_of_not-ltb}
use compute_sentry.Prelude.Text.{Text, codes}
use compute_sentry.Prelude.Decimal.{digit, digits}
use Prim.Native.Nat.{ℕ, zero, suc, ◌+◌, ◌/◌, ◌%◌, ◌≤◌, ◌<◌}
use Prim.Native.String.append
use Prim.Native.String.{String, ◌++◌ as ◌+++◌}
use Prim.Native.Char.{code}
use mathlib.Core.Path.{◌≡◌, refl, ap, ◌∙◌}
use mathlib.Core.Logic.{inl, inr}
use mathlib.Core.List.{[], ◌∷◌, ◌++◌}
use native.Mathlib.Omega.{arith}

pub codes-append : (s t : String) → codes (s +++ t) ≡ codes s ++ codes t
codes-append String.[] t = ap codes (append.nil t)
codes-append (String.◌∷◌ c s) t =
    ap codes (append.cons c s t) ∙ ap (λ r. code c ∷ r) (codes-append s t)

codes-digit : (d : ℕ) → d < 10 → codes (digit d) ≡ (b'0' + d) ∷ []
codes-digit zero h = refl
codes-digit (suc zero) h = refl
codes-digit (suc (suc zero)) h = refl
codes-digit (suc (suc (suc zero))) h = refl
codes-digit (suc (suc (suc (suc zero)))) h = refl
codes-digit (suc (suc (suc (suc (suc zero))))) h = refl
codes-digit (suc (suc (suc (suc (suc (suc zero)))))) h = refl
codes-digit (suc (suc (suc (suc (suc (suc (suc zero))))))) h = refl
codes-digit (suc (suc (suc (suc (suc (suc (suc (suc zero)))))))) h = refl
codes-digit (suc (suc (suc (suc (suc (suc (suc (suc (suc zero))))))))) h = refl
codes-digit (suc (suc (suc (suc (suc (suc (suc (suc (suc (suc d)))))))))) h =
    absurd (omega (arith, h))

-- A property of the digits of n in front of any text, from the digits of n / 10.
pub digits_ind {ℓ} :
    (P : ℕ → Text → Type ℓ)
    → ((d : ℕ) → d < 10 → P d ((b'0' + d) ∷ []))
    → ((n : ℕ) (s : Text) → 10 ≤ n → P (n / 10) s → P n (s ++ (b'0' + n % 10) ∷ []))
    → (f n : ℕ) → n < f
    → P n (codes (digits f n))
unfolding digits
digits_ind P one more zero n h = absurd (omega (arith, h))
digits_ind P one more (suc f) n h = elim (Bool-cases (ltb n 10)) [
  | inl small ↦ rw small (rw (codes-digit n (ltb→lt n 10 small)) (one n (ltb→lt n 10 small)))
  | inr large ↦ rw large (
      rw (codes-append (digits f (n / 10)) (digit (n % 10)), codes-digit (n % 10) (omega arith))
        (more n (codes (digits f (n / 10))) (le_of_not-ltb n 10 large)
          (digits_ind P one more f (n / 10) (omega (arith, h, le_of_not-ltb n 10 large)))))
]
