-- ===== src/Prelude/Text.antt =====
-- Names as Go strings over bytes: equality, literals, the cut at a NUL, `Sprintf("%s/%s")` and
-- `strings.Split(s, "/")`.
use compute_sentry.Prelude.Tests.{nat_beq, if◌then◌else◌, Eq}
use compute_sentry.Prelude.Lists.{All}
use Prim.Native.Char.{code}
use Prim.Native.String.{String}
use Prim.Native.Nat.{ℕ, zero, suc}
use mathlib.Core.Path.{◌≡◌, refl, ap, sym, ◌∙◌}
use mathlib.Core.Logic.{◌↔◌, ◌≢◌}
use mathlib.Core.Bool.{Bool, true, false, ◌&&◌}
use mathlib.Core.List.{List, [], ◌∷◌, ◌++◌}
use native.Mathlib.Omega.{arith}

abbrev pub Text : Type 0
Text = List ℕ

-- The bytes of an ASCII literal.
abbrev pub codes : String → Text
codes String.[] = []
codes (String.◌∷◌ c s) = code c ∷ codes s

unfoldable pub text_beq : Text → Text → Bool
text_beq [] [] = true
text_beq [] (y ∷ ys) = false
text_beq (x ∷ xs) [] = false
text_beq (x ∷ xs) (y ∷ ys) = nat_beq x y && text_beq xs ys

text_beq-eq : (s t : Text) → text_beq s t ≡ true → s ≡ t
unfolding text_beq
text_beq-eq [] [] h = refl
text_beq-eq [] (y ∷ ys) h = cc
text_beq-eq (x ∷ xs) [] h = cc
text_beq-eq (x ∷ xs) (y ∷ ys) h = ground (arith, text_beq-eq xs ys)

pub text_beq_refl : (s : Text) → text_beq s s ≡ true
unfolding text_beq
text_beq_refl [] = refl
text_beq_refl (x ∷ xs) = ground (arith, text_beq_refl xs)

pub text_beq_iff : (s t : Text) → (text_beq s t ≡ true) ↔ (s ≡ t)
text_beq_iff s t = (text_beq-eq s t, λ e. rw e (text_beq_refl t))

instance abbrev pub text_eq : Eq Text
text_eq = record { is_same = text_beq; same_iff = text_beq_iff }

-- The index search and slice `b[:bytes.IndexByte(b, 0)]`, the whole of `b` where there is no NUL.
unfoldable pub until_nul : List ℕ → Text
until_nul [] = []
until_nul (zero ∷ bs) = []
until_nul (suc b ∷ bs) = suc b ∷ until_nul bs

abbrev pub slash : ℕ
slash = 47

-- fmt.Sprintf("%s/%s", namespace, name)
unfoldable pub join_slash : Text → Text → Text
join_slash namespace name = namespace ++ slash ∷ name

-- One byte more in front of the first part.
unfoldable pub onto_first : ℕ → List Text → List Text
onto_first c [] = (c ∷ []) ∷ []
onto_first c (part ∷ parts) = (c ∷ part) ∷ parts

-- strings.Split(s, "/")
unfoldable pub split_slash : Text → List Text
unfolding onto_first
split_slash [] = [] ∷ []
split_slash (c ∷ s) =
    let parts = split_slash s in if nat_beq c slash then [] ∷ parts else onto_first c parts

abbrev pub HasNoSlash : Text → Type 0
HasNoSlash = All (λ c. c ≢ slash)

split_slash_plain : (s : Text) → HasNoSlash s → split_slash s ≡ s ∷ []
unfolding split_slash
split_slash_plain [] h = refl
split_slash_plain (c ∷ s) h = ground (arith, split_slash_plain s h.1)

-- Names without a slash come back from their key.
pub split_slash-join_slash :
    (namespace name : Text)
    → HasNoSlash namespace
    → HasNoSlash name
    → split_slash (join_slash namespace name) ≡ namespace ∷ name ∷ []
unfolding split_slash join_slash
split_slash-join_slash [] name h k = ground (arith, split_slash_plain name k)
split_slash-join_slash (c ∷ s) name h k = ground (arith, split_slash-join_slash s name h.1 k)

-- Parts put together again, a slash between any two.
join_all : List Text → Text
join_all [] = []
join_all (part ∷ []) = part
join_all (part ∷ next ∷ parts) = join_slash part (join_all (next ∷ parts))

join_all-onto_first :
    (c : ℕ) (parts : List Text) → parts ≢ [] → join_all (onto_first c parts) ≡ c ∷ join_all parts
unfolding join_all onto_first join_slash
join_all-onto_first c [] h = absurd (h refl)
join_all-onto_first c (part ∷ []) h = refl
join_all-onto_first c (part ∷ next ∷ parts) h = refl

onto_first-ne-nil : (c : ℕ) (parts : List Text) → onto_first c parts ≢ []
unfolding onto_first
onto_first-ne-nil c [] h = cc
onto_first-ne-nil c (part ∷ parts) h = cc

split_slash-ne-nil : (s : Text) → split_slash s ≢ []
unfolding split_slash
split_slash-ne-nil [] h = cc
split_slash-ne-nil (c ∷ s) h = ground (arith, onto_first-ne-nil c (split_slash s))

join_all-front : (parts : List Text) → parts ≢ [] → join_all ([] ∷ parts) ≡ slash ∷ join_all parts
unfolding join_all join_slash
join_all-front [] h = absurd (h refl)
join_all-front (part ∷ parts) h = refl

join_all-split_slash : (s : Text) → join_all (split_slash s) ≡ s
unfolding split_slash
join_all-split_slash [] = unfold join_all in refl
join_all-split_slash (c ∷ s) = ground (
  arith,
  join_all-split_slash s,
  join_all-onto_first c (split_slash s) (split_slash-ne-nil s),
  join_all-front (split_slash s) (split_slash-ne-nil s),
)

-- A text with two parts is their key.
pub join_slash_of_split :
    (s namespace name : Text)
    → split_slash s ≡ namespace ∷ name ∷ []
    → join_slash namespace name ≡ s
unfolding join_all
join_slash_of_split s namespace name h = ap join_all (sym h) ∙ join_all-split_slash s
