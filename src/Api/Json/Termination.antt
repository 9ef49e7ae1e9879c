-- ===== src/Api/Json/Termination.antt =====
-- The parser of Api/Json/Parser ends within its fuel.
use compute_sentry.Prelude.{ℕ, zero, suc, ◌+◌, ◌*◌, ◌<◌, ◌≤◌, List, [], ◌∷◌, length, ◌≢◌, arith}
use mathlib.Core.Path.{subst}
use compute_sentry.Prelude.Text.{Text}
use compute_sentry.Api.Json.Lexer.{
  text, Token, lbrace, rbrace, lbrack, rbrack, colon, comma, scalar, null, boolean, number,
}
use compute_sentry.Api.Json.Parser.{
  object, array, Items, Members, item, member, Parsed, done, invalid, out_of_fuel, and_then, inside,
  first_items, more_items, first_members, more_members, with_key, parse_value, parse_items,
  parse_members,
}

-- The call has ended, and has left less than so much of its input.
abbrev pub Ends {ℓ} : {A : Type ℓ} → ℕ → Parsed A → Type 0
Ends n (done a rest) = length rest < n
Ends n invalid = Unit
Ends n out_of_fuel = ⊥

module _ {ℓ κ} {A : Type ℓ} {B : Type κ} where
  and_then-Ends :
      (n m : ℕ) (p : Parsed A) (k : A → List Token → Parsed B)
      → Ends n p
      → ((a : A) (rest : List Token) → length rest < n → Ends m (k a rest))
      → Ends m (and_then p k)
  unfolding and_then
  and_then-Ends n m (done a rest) k h next = next a rest h
  and_then-Ends n m invalid k h next = tt
  and_then-Ends n m out_of_fuel k h next = h

inside-Ends {ℓ} :
    {A : Type ℓ} (n room : ℕ) (k : ℕ → Parsed A) → ((r : ℕ) → Ends n (k r)) → Ends n (inside room k)
unfolding inside
inside-Ends n zero k h = tt
inside-Ends n (suc room) k h = h room

done_within-Ends {ℓ κ} :
    {A : Type ℓ} {B : Type κ} (n m : ℕ) (p : Parsed A) (f : A → B)
    → Ends n p
    → n ≤ m
    → Ends m (and_then p (λ a. done (f a)))
done_within-Ends n m p f h le =
    and_then-Ends n m p (λ a. done (f a)) h (λ a rest lt. omega (arith, lt, le))

-- What goes on behind a bracket or a comma ends, where the fuel is enough for it.
abbrev EndsWithin {ℓ} : {A : Type ℓ} → ℕ → (List Token → Parsed A) → Type 0
EndsWithin f next = (ts : List Token) → 2 * length ts + 2 ≤ f → Ends (length ts) (next ts)

module _ (f : ℕ) where
  first_items-Ends :
      (next : List Token → Parsed Items) (ts : List Token)
      → EndsWithin f next
      → 2 * length ts + 2 ≤ f
      → Ends (length ts) (first_items next ts)
  unfolding first_items
  first_items-Ends next [] h le = h [] le
  first_items-Ends next (rbrack ∷ ts) h le = omega arith
  first_items-Ends next (lbrace ∷ ts) h le = h (lbrace ∷ ts) le
  first_items-Ends next (rbrace ∷ ts) h le = h (rbrace ∷ ts) le
  first_items-Ends next (lbrack ∷ ts) h le = h (lbrack ∷ ts) le
  first_items-Ends next (colon ∷ ts) h le = h (colon ∷ ts) le
  first_items-Ends next (comma ∷ ts) h le = h (comma ∷ ts) le
  first_items-Ends next (scalar s ∷ ts) h le = h (scalar s ∷ ts) le

  first_members-Ends :
      (next : List Token → Parsed Members) (ts : List Token)
      → EndsWithin f next
      → 2 * length ts + 2 ≤ f
      → Ends (length ts) (first_members next ts)
  unfolding first_members
  first_members-Ends next [] h le = h [] le
  first_members-Ends next (rbrace ∷ ts) h le = omega arith
  first_members-Ends next (lbrace ∷ ts) h le = h (lbrace ∷ ts) le
  first_members-Ends next (rbrack ∷ ts) h le = h (rbrack ∷ ts) le
  first_members-Ends next (lbrack ∷ ts) h le = h (lbrack ∷ ts) le
  first_members-Ends next (colon ∷ ts) h le = h (colon ∷ ts) le
  first_members-Ends next (comma ∷ ts) h le = h (comma ∷ ts) le
  first_members-Ends next (scalar s ∷ ts) h le = h (scalar s ∷ ts) le

-- One token less is left than the mark allows.
shorter-Ends {ℓ} : {A : Type ℓ} (n m : ℕ) (p : Parsed A) → n ≤ m → Ends n p → Ends m p
shorter-Ends n m (done a rest) le h = omega (arith, le, h)
shorter-Ends n m invalid le h = tt
shorter-Ends n m out_of_fuel le h = h

module _ (f m : ℕ) where
  more_items-Ends :
      (next : List Token → Parsed Items) (ts : List Token)
      → EndsWithin f next
      → length ts < m
      → 2 * m ≤ f + 1
      → Ends m (more_items next ts)
  unfolding more_items
  more_items-Ends next [] h lt le = tt
  more_items-Ends next (rbrack ∷ ts) h lt le = omega (arith, lt)
  more_items-Ends next (lbrace ∷ ts) h lt le = tt
  more_items-Ends next (rbrace ∷ ts) h lt le = tt
  more_items-Ends next (lbrack ∷ ts) h lt le = tt
  more_items-Ends next (colon ∷ ts) h lt le = tt
  more_items-Ends next (comma ∷ ts) h lt le =
      shorter-Ends (length ts) m (next ts) (omega (arith, lt)) (h ts (omega (arith, lt, le)))
  more_items-Ends next (scalar s ∷ ts) h lt le = tt

  more_members-Ends :
      (next : List Token → Parsed Members) (ts : List Token)
      → EndsWithin f next
      → length ts < m
      → 2 * m ≤ f + 1
      → Ends m (more_members next ts)
  unfolding more_members
  more_members-Ends next [] h lt le = tt
  more_members-Ends next (rbrace ∷ ts) h lt le = omega (arith, lt)
  more_members-Ends next (lbrace ∷ ts) h lt le = tt
  more_members-Ends next (rbrack ∷ ts) h lt le = tt
  more_members-Ends next (lbrack ∷ ts) h lt le = tt
  more_members-Ends next (colon ∷ ts) h lt le = tt
  more_members-Ends next (comma ∷ ts) h lt le =
      shorter-Ends (length ts) m (next ts) (omega (arith, lt)) (h ts (omega (arith, lt, le)))
  more_members-Ends next (scalar s ∷ ts) h lt le = tt

with_key-Ends :
    (k : Text → List Token → Parsed Members) (ts : List Token)
    → ((key : Text) (rest : List Token) → length rest < length ts → Ends (length ts) (k key rest))
    → Ends (length ts) (with_key k ts)
unfolding with_key
with_key-Ends k [] h = tt
with_key-Ends k (lbrace ∷ ts) h = tt
with_key-Ends k (rbrace ∷ ts) h = tt
with_key-Ends k (lbrack ∷ ts) h = tt
with_key-Ends k (rbrack ∷ ts) h = tt
with_key-Ends k (colon ∷ ts) h = tt
with_key-Ends k (comma ∷ ts) h = tt
with_key-Ends k (scalar null ∷ ts) h = tt
with_key-Ends k (scalar (boolean b) ∷ ts) h = tt
with_key-Ends k (scalar (number n) ∷ ts) h = tt
with_key-Ends k (scalar (text key) ∷ []) h = tt
with_key-Ends k (scalar (text key) ∷ lbrace ∷ ts) h = tt
with_key-Ends k (scalar (text key) ∷ rbrace ∷ ts) h = tt
with_key-Ends k (scalar (text key) ∷ lbrack ∷ ts) h = tt
with_key-Ends k (scalar (text key) ∷ rbrack ∷ ts) h = tt
with_key-Ends k (scalar (text key) ∷ comma ∷ ts) h = tt
with_key-Ends k (scalar (text key) ∷ scalar s ∷ ts) h = tt
with_key-Ends k (scalar (text key) ∷ colon ∷ ts) h = h key ts (omega arith)

mutual
  unfolding parse_value parse_items parse_members

  pub parse_value-Ends :
      (f room : ℕ) (ts : List Token) → 2 * length ts < f → Ends (length ts) (parse_value f room ts)
  parse_value-Ends zero room ts h = absurd (omega (arith, h))
  parse_value-Ends (suc f) room (scalar s ∷ ts) h = omega arith
  parse_value-Ends (suc f) room (lbrack ∷ ts) h =
      done_within-Ends (length ts) (suc (length ts)) _ array
        (inside-Ends (length ts) room _
          (λ r. first_items-Ends f (parse_items f r) ts (parse_items-Ends f r) (omega (arith, h))))
        (omega arith)
  parse_value-Ends (suc f) room (lbrace ∷ ts) h =
      done_within-Ends (length ts) (suc (length ts)) _ object
        (inside-Ends (length ts) room _ (λ r.
          first_members-Ends f (parse_members f r) ts (parse_members-Ends f r) (omega (arith, h))))
        (omega arith)
  parse_value-Ends (suc f) room [] h = tt
  parse_value-Ends (suc f) room (rbrace ∷ ts) h = tt
  parse_value-Ends (suc f) room (rbrack ∷ ts) h = tt
  parse_value-Ends (suc f) room (colon ∷ ts) h = tt
  parse_value-Ends (suc f) room (comma ∷ ts) h = tt

  parse_items-Ends : (f room : ℕ) → EndsWithin f (parse_items f room)
  parse_items-Ends zero room ts h = absurd (omega (arith, h))
  parse_items-Ends (suc f) room ts h =
      and_then-Ends (length ts) (length ts) (parse_value f room ts) _
        (parse_value-Ends f room ts (omega (arith, h)))
        (λ v rest lt.
          done_within-Ends (length ts) (length ts) _ (item v)
            (more_items-Ends f (length ts) (parse_items f room) rest (parse_items-Ends f room) lt
              (omega (arith, h)))
            (omega arith))

  parse_members-Ends : (f room : ℕ) → EndsWithin f (parse_members f room)
  parse_members-Ends zero room ts h = absurd (omega (arith, h))
  parse_members-Ends (suc f) room ts h = with_key-Ends _ ts (λ key ts' shorter.
      and_then-Ends (length ts') (length ts) (parse_value f room ts') _
        (parse_value-Ends f room ts' (omega (arith, h, shorter)))
        (λ v rest lt.
          done_within-Ends (length ts) (length ts) _ (member key v)
            (more_members-Ends f (length ts) (parse_members f room) rest (parse_members-Ends f room)
              (omega (arith, lt, shorter)) (omega (arith, h)))
            (omega arith)))

-- The parser never runs out of fuel, whatever tokens it is given and however deep they nest.
pub parse_value-ne-out_of_fuel :
    (room : ℕ) (ts : List Token) → parse_value (suc (2 * length ts)) room ts ≢ out_of_fuel
parse_value-ne-out_of_fuel room ts h =
    subst (Ends (length ts)) (h) (parse_value-Ends (suc (2 * length ts)) room ts (omega arith))
