-- ===== src/Api/Json/Printing.antt =====
-- The tokens of the text that json.Marshal writes, and the value that they are.
use compute_sentry.Prelude.{
  ℕ, zero, suc, ◌+◌, ◌<◌, String, List, [], ◌∷◌, ◌++◌, ◌≡◌, ◌≢◌, refl, sym, arith, All, length,
  append_assoc,
}
use compute_sentry.Prelude.Int.{ℤ, pos}
use compute_sentry.Prelude.Text.{Text, codes}
use compute_sentry.Prelude.Decimal.{decimal}
use compute_sentry.Prelude.Decimal.Digits.{codes-append}
use compute_sentry.Api.Json.Lexer.{
  Token, scalar, text, number, lbrace, rbrace, comma, colon, ready, in_number, integer, lex_step,
  start, number_step,
}
use compute_sentry.Api.Json.Parser.{
  leaf, object, Members, no_members, member, done, parse_value, parse_members, and_then, inside,
  first_members, more_members, with_key,
}
use compute_sentry.Api.Json.Lexing.{
  Reads, Reads-nil, Reads-cons, Reads-append, Reads-plain, Reads-decimal, IsPlain,
}
use Prim.Native.String.{◌++◌ as ◌+++◌}
use compute_sentry.Api.Json.Config.{Fields, key_text, more_text, object_text}

-- A field that is written: its name needs no escape, and its number is not 0.
abbrev pub IsWritten : String × ℤ → Type 0
IsWritten (name, n) = All IsPlain (codes name) × (n ≢ pos 0)

unfoldable pub more_tokens : Fields → List Token
more_tokens [] = rbrace ∷ []
more_tokens ((name, n) ∷ fields) =
    comma
    ∷ scalar (text (codes name))
    ∷ colon
    ∷ scalar (number (codes (decimal n)))
    ∷ more_tokens fields

unfoldable pub object_tokens : Fields → List Token
unfolding more_tokens
object_tokens [] = lbrace ∷ rbrace ∷ []
object_tokens ((name, n) ∷ fields) =
    lbrace
    ∷ scalar (text (codes name))
    ∷ colon
    ∷ scalar (number (codes (decimal n)))
    ∷ more_tokens fields

unfoldable pub members_of : Fields → Members
members_of [] = no_members
members_of ((name, n) ∷ fields) =
    member (codes name) (leaf (number (codes (decimal n)))) (members_of fields)

pub Reads-key :
    (name : String)
    → All IsPlain (codes name)
    → Reads ready (codes (key_text name)) ready (scalar (text (codes name)) ∷ colon ∷ [])
unfolding lex_step start
Reads-key name h =
    rw (codes-append "\"" (name +++ "\":"), codes-append name "\":")
      (Reads-cons b'"' (codes name ++ codes "\":") [] _ refl (
        Reads-append (codes name) (codes "\":") [] _ (Reads-plain [] (codes name) h) (
          Reads-cons b'"' (b':' ∷ []) (scalar (text (codes name)) ∷ []) _ refl
            (Reads-cons b':' [] (colon ∷ []) [] refl (Reads-nil ready)))))

-- A field's key and number.
Reads-field :
    (name : String) (n : ℤ)
    → IsWritten (name, n)
    → Reads ready
        (codes (key_text name) ++ codes (decimal n))
        (in_number integer (codes (decimal n)))
        (scalar (text (codes name)) ∷ colon ∷ [])
Reads-field name n h =
    Reads-append (codes (key_text name)) (codes (decimal n)) _ [] (Reads-key name h.0)
      (Reads-decimal n h.1)

Reads-more :
    (fields : Fields) (acc : Text)
    → All IsWritten fields
    → Reads
        (in_number integer acc)
        (codes (more_text fields))
        ready
        (scalar (number acc) ∷ more_tokens fields)
unfolding more_text more_tokens lex_step start number_step
Reads-more [] acc h = Reads-cons b'}' [] _ [] refl (Reads-nil ready)
Reads-more ((name, n) ∷ fields) acc h =
    rw
      (
        codes-append "," (key_text name +++ decimal n +++ more_text fields),
        codes-append (key_text name) (decimal n +++ more_text fields),
        codes-append (decimal n) (more_text fields),
        sym (append_assoc (codes (key_text name)) (codes (decimal n)) (codes (more_text fields))),
      )
      (Reads-cons b',' _ (scalar (number acc) ∷ comma ∷ []) _ refl (
        Reads-append (codes (key_text name) ++ codes (decimal n)) (codes (more_text fields)) _ _
          (Reads-field name n h.0) (Reads-more fields (codes (decimal n)) h.1)))

pub Reads-object :
    (fields : Fields)
    → All IsWritten fields
    → Reads ready (codes (object_text fields)) ready (object_tokens fields)
unfolding object_text object_tokens lex_step start
Reads-object [] h =
    Reads-cons b'{' (b'}' ∷ []) (lbrace ∷ []) _ refl
      (Reads-cons b'}' [] _ [] refl (Reads-nil ready))
Reads-object ((name, n) ∷ fields) h =
    rw
      (
        codes-append "{" (key_text name +++ decimal n +++ more_text fields),
        codes-append (key_text name) (decimal n +++ more_text fields),
        codes-append (decimal n) (more_text fields),
        sym (append_assoc (codes (key_text name)) (codes (decimal n)) (codes (more_text fields))),
      )
      (Reads-cons b'{' _ (lbrace ∷ []) _ refl (
        Reads-append (codes (key_text name) ++ codes (decimal n)) (codes (more_text fields)) _ _
          (Reads-field name n h.0) (Reads-more fields (codes (decimal n)) h.1)))

-- The members that the tokens are, behind a key's comma or the opening brace.
parse_more :
    (f room : ℕ) (fields : Fields) (name : Text) (v : Text) (rest : List Token)
    → length fields + 1 < f
    → parse_members f room
        (scalar (text name) ∷ colon ∷ scalar (number v) ∷ more_tokens fields ++ rest)
      ≡ done (member name (leaf (number v)) (members_of fields)) rest
unfolding parse_members parse_value and_then more_members with_key more_tokens members_of
parse_more zero room fields name v rest h = absurd (omega (arith, h))
parse_more (suc zero) room fields name v rest h = absurd (omega (arith, h))
parse_more (suc (suc f)) room [] name v rest h = refl
parse_more (suc (suc f)) room ((k, n) ∷ fields) name v rest h =
    rw (parse_more (suc f) room fields (codes k) (codes (decimal n)) rest (omega (arith, h))) refl

pub parse_object :
    (f room : ℕ) (fields : Fields) (rest : List Token)
    → length fields + 1 < f
    → parse_value f (suc room) (object_tokens fields ++ rest)
      ≡ done (object (members_of fields)) rest
unfolding parse_value and_then inside first_members object_tokens members_of
parse_object zero room fields rest h = absurd (omega (arith, h))
parse_object (suc f) room [] rest h = refl
parse_object (suc f) room ((k, n) ∷ fields) rest h =
    rw (parse_more f room fields (codes k) (codes (decimal n)) rest (omega (arith, h))) refl
