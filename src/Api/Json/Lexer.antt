-- ===== src/Api/Json/Lexer.antt =====
-- The scanner of encoding/json, which reads one character at a time, as a machine that puts out
-- tokens. A text is its characters; escapes of a string stand for the unit that they name.
use compute_sentry.Prelude.{
  Bool, true, false, ◌&&◌, ◌||◌, ℕ, zero, suc, ◌+◌, ◌-◌, ◌*◌, Option, none, some, List, [], ◌∷◌,
  ◌++◌, leb, ltb, nat_beq, maybe, if◌then◌else◌,
}
use compute_sentry.Prelude.Text.{Text, codes}

pub data Scalar : Type 0 where
  null : Scalar
  boolean : Bool → Scalar
  number : Text → Scalar
  text : Text → Scalar

pub data Token : Type 0 where
  lbrace : Token
  rbrace : Token
  lbrack : Token
  rbrack : Token
  colon : Token
  comma : Token
  scalar : Scalar → Token

-- What a number has come to.
pub data NumberState : Type 0 where
  minus : NumberState
  zero_digit : NumberState
  integer : NumberState
  dot : NumberState
  fraction : NumberState
  exponent : NumberState
  exponent_sign : NumberState
  exponent_digits : NumberState

abbrev pub is_digit : ℕ → Bool
is_digit c = leb b'0' c && leb c b'9'

abbrev pub is_exponent : ℕ → Bool
is_exponent c = nat_beq c b'e' || nat_beq c b'E'

unfoldable pub after_integer : ℕ → Option NumberState
after_integer c = if nat_beq c b'.' then some dot else if is_exponent c then some exponent else none

-- `none` where the character does not go on with the number.
unfoldable pub number_step : NumberState → ℕ → Option NumberState
unfolding after_integer
number_step minus c =
    if nat_beq c b'0' then some zero_digit else if is_digit c then some integer else none
number_step zero_digit c = after_integer c
number_step integer c = if is_digit c then some integer else after_integer c
number_step dot c = if is_digit c then some fraction else none
number_step fraction c =
    if is_digit c then some fraction else if is_exponent c then some exponent else none
number_step exponent c =
    if nat_beq c b'+' || nat_beq c b'-'
    then some exponent_sign
    else if is_digit c
    then some exponent_digits
    else none
number_step exponent_sign c = if is_digit c then some exponent_digits else none
number_step exponent_digits c = if is_digit c then some exponent_digits else none

-- Whether a number may end there.
abbrev pub is_whole : NumberState → Bool
is_whole zero_digit = true
is_whole integer = true
is_whole fraction = true
is_whole exponent_digits = true
is_whole _ = false

-- Where the scanner stands: between tokens, in a word of which a part is to come, in a number or a
-- string with what has been read of it, behind a backslash, or in `\u` with digits to come.
pub data Mode : Type 0 where
  ready : Mode
  in_word : Text → Scalar → Mode
  in_number : NumberState → Text → Mode
  in_text : Text → Mode
  escaped : Text → Mode
  in_unicode : ℕ → ℕ → Text → Mode

abbrev pub Step : Type 0
Step = Option (Mode × List Token)

abbrev pub emit : Token → Step
emit t = some (ready, t ∷ [])

abbrev pub enter : Mode → Step
enter m = some (m, [])

abbrev pub is_space : ℕ → Bool
is_space c = nat_beq c 32 || nat_beq c 9 || nat_beq c 10 || nat_beq c 13

unfoldable pub start_number : ℕ → Step
unfolding number_step
start_number c =
    if nat_beq c b'-'
    then enter (in_number minus (c ∷ []))
    else maybe (number_step minus c) none (λ s. enter (in_number s (c ∷ [])))

-- A character between tokens.
unfoldable pub start : ℕ → Step
unfolding start_number
start c =
    if is_space c
    then enter ready
    else if nat_beq c b'{'
    then emit lbrace
    else if nat_beq c b'}'
    then emit rbrace
    else if nat_beq c b'['
    then emit lbrack
    else if nat_beq c b']'
    then emit rbrack
    else if nat_beq c b':'
    then emit colon
    else if nat_beq c b','
    then emit comma
    else if nat_beq c b'"'
    then enter (in_text [])
    else if nat_beq c b't'
    then enter (in_word (codes "rue") (boolean true))
    else if nat_beq c b'f'
    then enter (in_word (codes "alse") (boolean false))
    else if nat_beq c b'n'
    then enter (in_word (codes "ull") null)
    else start_number c

-- The character that stands behind a backslash, other than `u`.
unfoldable pub unescape : ℕ → Option ℕ
unescape c =
    if nat_beq c b'"' || nat_beq c b'\\' || nat_beq c b'/'
    then some c
    else if nat_beq c b'b'
    then some 8
    else if nat_beq c b'f'
    then some 12
    else if nat_beq c b'n'
    then some 10
    else if nat_beq c b'r'
    then some 13
    else if nat_beq c b't'
    then some 9
    else none

unfoldable pub hex_digit : ℕ → Option ℕ
hex_digit c =
    if is_digit c
    then some (c - b'0')
    else if leb b'a' c && leb c b'f'
    then some (c - b'a' + 10)
    else if leb b'A' c && leb c b'F'
    then some (c - b'A' + 10)
    else none

-- A hexadecimal digit of a string's `\u`, after which so many are to come.
unfoldable pub unicode_digit : ℕ → ℕ → Text → ℕ → Step
unicode_digit zero v acc d = enter (in_text (acc ++ (v * 16 + d) ∷ []))
unicode_digit (suc n) v acc d = enter (in_unicode n (v * 16 + d) acc)

unfoldable pub lex_step : Mode → ℕ → Step
unfolding start number_step unescape hex_digit unicode_digit
lex_step ready c = start c
lex_step (in_word [] s) c = none
lex_step (in_word (x ∷ []) s) c = if nat_beq c x then emit (scalar s) else none
lex_step (in_word (x ∷ y ∷ ys) s) c = if nat_beq c x then enter (in_word (y ∷ ys) s) else none
lex_step (in_number n acc) c =
    maybe (number_step n c)
      (if is_whole n
        then maybe (start c) none (λ r. some (r.0, scalar (number acc) ∷ r.1))
        else none)
      (λ n'. enter (in_number n' (acc ++ c ∷ [])))
lex_step (in_text acc) c =
    if nat_beq c b'"'
    then emit (scalar (text acc))
    else if nat_beq c b'\\'
    then enter (escaped acc)
    else if ltb c 32
    then none
    else enter (in_text (acc ++ c ∷ []))
lex_step (escaped acc) c =
    if nat_beq c b'u'
    then enter (in_unicode 3 0 acc)
    else maybe (unescape c) none (λ u. enter (in_text (acc ++ u ∷ [])))
lex_step (in_unicode n v acc) c = maybe (hex_digit c) none (unicode_digit n v acc)

-- The end of the input.
unfoldable pub lex_end : Mode → Option (List Token)
lex_end ready = some []
lex_end (in_number n acc) = if is_whole n then some (scalar (number acc) ∷ []) else none
lex_end _ = none

-- The tokens of a text from a mode; `none` where the scanner stops at an error.
unfoldable pub lex : Mode → Text → Option (List Token)
unfolding lex_step lex_end
lex m [] = lex_end m
lex m (c ∷ cs) = maybe (lex_step m c) none (λ r. maybe (lex r.0 cs) none (λ ts. some (r.1 ++ ts)))
