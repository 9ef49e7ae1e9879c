-- ===== src/Api/Json/Lexing.antt =====
-- What the scanner makes of a text that is put together from parts.
use compute_sentry.Prelude.{
  ℕ, zero, suc, ◌+◌, ◌%◌, ◌≤◌, ◌<◌, Option, none, some, List, [], ◌∷◌, ◌++◌, ◌≡◌, ◌≢◌, refl, sym,
  ap, arith, maybe, append_assoc, append_nil, All,
}
use compute_sentry.Prelude.Int.{ℤ, pos, negsuc}
use compute_sentry.Prelude.Text.{Text, codes}
use compute_sentry.Prelude.Decimal.{digits, decimal}
use compute_sentry.Prelude.Decimal.Digits.{digits_ind, codes-append}
use compute_sentry.Api.Json.Lexer.{
  Token, Mode, ready, in_text, in_number, minus, integer, lex_step, lex, number_step, start,
  start_number,
}

abbrev pub prepend : List Token → Option (List Token) → Option (List Token)
prepend ts o = maybe o none (λ r. some (ts ++ r))

-- From the first mode the text is read to the second, and gives these tokens, whatever follows.
pub record Reads (m : Mode) (s : Text) (m' : Mode) (ts : List Token) : Type 0 where
  pub reads : (rest : Text) → lex m (s ++ rest) ≡ prepend ts (lex m' rest)

prepend-append :
    (ts us : List Token) (o : Option (List Token))
    → prepend ts (prepend us o) ≡ prepend (ts ++ us) o
prepend-append ts us none = refl
prepend-append ts us (some r) = ap some (sym (append_assoc ts us r))

prepend_nil : (o : Option (List Token)) → prepend [] o ≡ o
prepend_nil none = refl
prepend_nil (some r) = refl

pub Reads-nil : (m : Mode) → Reads m [] m []
Reads-nil m = record { reads = λ rest. sym (prepend_nil (lex m rest)) }

pub Reads-append :
    {m m' m'' : Mode} (s t : Text) (ts us : List Token)
    → Reads m s m' ts
    → Reads m' t m'' us
    → Reads m (s ++ t) m'' (ts ++ us)
Reads-append {m'' = m''} s t ts us h k = record {
  reads = λ rest.
      rw (append_assoc s t rest, h.reads (t ++ rest), k.reads rest)
        (prepend-append ts us (lex m'' rest));
}

pub Reads-cons :
    {m m' m'' : Mode} (c : ℕ) (s : Text) (ts us : List Token)
    → lex_step m c ≡ some (m', ts)
    → Reads m' s m'' us
    → Reads m (c ∷ s) m'' (ts ++ us)
unfolding lex
Reads-cons {m'' = m''} c s ts us h k = record {
  reads = λ rest. rw (h, k.reads rest) (prepend-append ts us (lex m'' rest));
}

-- Characters that stand for themselves in a string.
abbrev pub IsPlain : ℕ → Type 0
IsPlain c = (c ≢ b'"') × (c ≢ b'\\') × (32 ≤ c)

text_step :
    (acc : Text) (c : ℕ) → IsPlain c → lex_step (in_text acc) c ≡ some (in_text (acc ++ c ∷ []), [])
unfolding lex_step
text_step acc c h = ground arith

pub Reads-plain : (acc s : Text) → All IsPlain s → Reads (in_text acc) s (in_text (acc ++ s)) []
Reads-plain acc [] h = rw (append_nil acc) (Reads-nil (in_text acc))
Reads-plain acc (c ∷ s) h =
    Reads-cons c s [] [] (text_step acc c h.0)
      (rw (sym (append_assoc acc (c ∷ []) s)) (Reads-plain (acc ++ c ∷ []) s h.1))

integer_step :
    (acc : Text) (d : ℕ)
    → d < 10
    → lex_step (in_number integer acc) (b'0' + d)
      ≡ some (in_number integer (acc ++ (b'0' + d) ∷ []), [])
unfolding lex_step number_step
integer_step acc d h = ground arith

-- A positive number's digits, from where the first one starts an integer.
digits_from-Reads :
    (m : Mode) (acc : Text)
    → ((d : ℕ)
        → 0 < d
        → d < 10
        → lex_step m (b'0' + d) ≡ some (in_number integer (acc ++ (b'0' + d) ∷ []), []))
    → (f n : ℕ) → n < f
    → 0 < n
    → Reads m (codes (digits f n)) (in_number integer (acc ++ codes (digits f n))) []
digits_from-Reads m acc first =
    digits_ind (λ n s. 0 < n → Reads m s (in_number integer (acc ++ s)) [])
      (λ d small positive. Reads-cons (b'0' + d) [] [] [] (first d positive small) (Reads-nil _))
      (λ n s large ih positive.
        Reads-append s ((b'0' + n % 10) ∷ []) [] [] (ih (omega (arith, large))) (
          rw (sym (append_assoc acc s ((b'0' + n % 10) ∷ []))) (
            Reads-cons (b'0' + n % 10) [] [] [] (integer_step (acc ++ s) (n % 10) (omega arith))
              (Reads-nil _))))

first_of_ready :
    (d : ℕ)
    → 0 < d
    → d < 10
    → lex_step ready (b'0' + d) ≡ some (in_number integer ((b'0' + d) ∷ []), [])
unfolding lex_step start start_number number_step
first_of_ready d h k = ground arith

first_of_minus :
    (d : ℕ)
    → 0 < d
    → d < 10
    → lex_step (in_number minus (b'-' ∷ [])) (b'0' + d)
      ≡ some (in_number integer (b'-' ∷ (b'0' + d) ∷ []), [])
unfolding lex_step number_step
first_of_minus d h k = ground arith

positive : (n : ℕ) → pos n ≢ pos 0 → 0 < n
positive zero h = absurd (h refl)
positive (suc n) h = omega arith

-- A number other than 0.
pub Reads-decimal :
    (n : ℤ) → n ≢ pos 0 → Reads ready (codes (decimal n)) (in_number integer (codes (decimal n))) []
unfolding decimal lex_step start start_number
Reads-decimal (pos n) h =
    digits_from-Reads ready [] first_of_ready (suc n) n (omega arith) (positive n h)
Reads-decimal (negsuc n) h = rw (codes-append "-" (digits (suc (suc n)) (suc n))) (
    Reads-cons b'-' (codes (digits (suc (suc n)) (suc n))) [] [] refl (
      digits_from-Reads (in_number minus (b'-' ∷ [])) (b'-' ∷ []) first_of_minus (suc (suc n))
        (suc n) (omega arith) (omega arith)))
