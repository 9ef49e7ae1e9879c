-- ===== src/Api/Json/Numbers.antt =====
-- An int64 that is printed in decimal is read back.
use compute_sentry.Prelude.{
  ℕ, suc, ◌+◌, ◌*◌, ◌/◌, ◌%◌, ◌^◌, ◌≤◌, ◌<◌, some, [], ◌∷◌, ◌++◌, ◌≡◌, refl, sym, ap, ◌∙◌, arith,
  append_assoc, append_nil,
}
use compute_sentry.Prelude.Int.{ℤ, pos, negsuc, neg, IsInt64}
use compute_sentry.Prelude.Text.{Text, codes}
use compute_sentry.Prelude.Decimal.{digits, decimal}
use compute_sentry.Prelude.Decimal.Digits.{digits_ind, codes-append}
use compute_sentry.Api.Json.Lexer.{number}
use compute_sentry.Api.Json.Parser.{leaf}
use compute_sentry.Api.Json.Config.{scan_digits, parse_digits, parse_int64, decode_int}

scan_last :
    (m d : ℕ) (rest : Text)
    → d < 10
    → scan_digits m ((b'0' + d) ∷ rest) ≡ scan_digits (m * 10 + d) rest
unfolding scan_digits
scan_last m d rest h = ground arith

-- The digits of n in front of a text.
Scans : ℕ → Text → Type 0
Scans n s = (rest : Text) → scan_digits 0 (s ++ rest) ≡ scan_digits n rest

zero_times : (d : ℕ) → 0 * 10 + d ≡ d
zero_times d = omega arith

scan_digits-digits : (f n : ℕ) → n < f → Scans n (codes (digits f n))
unfolding Scans
scan_digits-digits =
    digits_ind Scans
      (λ d h rest. scan_last 0 d rest h ∙ ap (λ m. scan_digits m rest) (zero_times d))
      (λ n s large ih rest.
        rw
          (
            append_assoc s ((b'0' + n % 10) ∷ []) rest,
            ih ((b'0' + n % 10) ∷ rest),
            scan_last (n / 10) (n % 10) rest (omega arith),
          )
          (ap (λ m. scan_digits m rest) (omega arith)))

-- A text that starts with a digit.
abbrev StartsWithDigit : Text → Type 0
StartsWithDigit [] = ⊥
StartsWithDigit (c ∷ s) = b'0' ≤ c

starts-digits : (f n : ℕ) → n < f → StartsWithDigit (codes (digits f n))
starts-digits =
    digits_ind (λ n s. StartsWithDigit s) (λ d h. omega arith)
      (λ n s large ih. starts-append s _ ih)
  where
    starts-append : (s t : Text) → StartsWithDigit s → StartsWithDigit (s ++ t)
    starts-append [] t h = absurd h
    starts-append (c ∷ s) t h = h

parse_digits_of : (n : ℕ) (s : Text) → StartsWithDigit s → Scans n s → parse_digits s ≡ some n
unfolding parse_digits Scans
parse_digits_of n [] h k = absurd h
parse_digits_of n (c ∷ s) h k =
    ap (scan_digits 0) (sym (append_nil (c ∷ s))) ∙ k [] ∙ (unfold scan_digits in refl)

parse_digits-digits : (f n : ℕ) → n < f → parse_digits (codes (digits f n)) ≡ some n
parse_digits-digits f n h =
    parse_digits_of n (codes (digits f n)) (starts-digits f n h) (scan_digits-digits f n h)

parse_unsigned :
    (n : ℕ) (s : Text)
    → n < 2 ^ 63
    → StartsWithDigit s
    → parse_digits s ≡ some n
    → parse_int64 s ≡ some (pos n)
unfolding parse_int64
parse_unsigned n [] h k e = absurd k
parse_unsigned n (c ∷ s) h k e = ground arith

pub parse_int64-decimal : (n : ℤ) → IsInt64 n → parse_int64 (codes (decimal n)) ≡ some n
unfolding decimal
parse_int64-decimal (pos n) h =
    parse_unsigned n (codes (digits (suc n) n)) h (starts-digits (suc n) n (omega arith))
      (parse_digits-digits (suc n) n (omega arith))
parse_int64-decimal (negsuc n) h = rw (codes-append "-" (digits (suc (suc n)) (suc n))) (
    unfold parse_int64 neg in
    rw (parse_digits-digits (suc (suc n)) (suc n) (omega arith)) (ground arith))

pub decode_int-decimal :
    (z n : ℤ) → IsInt64 n → decode_int z (leaf (number (codes (decimal n)))) ≡ some n
unfolding decode_int
decode_int-decimal z n h = parse_int64-decimal n h
