-- ===== src/Health/Keeps.antt =====
-- Actions that keep a property of the cluster, whether they end with a value or an error.
use compute_sentry.Prelude.{◌≡◌, refl, Bool, true, false, if◌then◌else◌}
use compute_sentry.Health.Server.{
  Result, ok, err, Error, Action, pure, fail, read, written, write, attempt, unless_error, ◌>>=◌,
}

pub record Keeps {W A : Type 0} (P : W → Type 0) (m : Action W A) : Type 0 where
  pub at : (w : W) → P w → P (m w).1

module _ {W A : Type 0} {P : W → Type 0} where
  pub Keeps-pure : (a : A) → Keeps P (pure a)
  unfolding pure
  Keeps-pure a = record { at = λ w h. h }

  pub Keeps-fail : (e : Error) → Keeps P (fail {A = A} e)
  unfolding fail
  Keeps-fail e = record { at = λ w h. h }

  pub Keeps-read : (call : W → Result A) → Keeps P (read call)
  unfolding read
  Keeps-read call = record { at = λ w h. h }

  pub Keeps-if :
      (b : Bool) (m n : Action W A)
      → (b ≡ true → Keeps P m)
      → (b ≡ false → Keeps P n)
      → Keeps P (if b then m else n)
  Keeps-if true m n k l = k refl
  Keeps-if false m n k l = l refl

module _ {W : Type 0} {P : W → Type 0} where
  written-keeps : (w : W) (r : Result W) → ((w' : W) → r ≡ ok w' → P w') → P w → P (written r w).1
  unfolding written
  written-keeps w (ok w') after h = after w' refl
  written-keeps w (err e) after h = h

  pub Keeps-write :
      (call : W → Result W) → ((w w' : W) → P w → call w ≡ ok w' → P w') → Keeps P (write call)
  unfolding write
  Keeps-write call after = record {
    at = λ w h. written-keeps w (call w) (λ w' e. after w w' h e) h;
  }

module _ {W A B : Type 0} {P : W → Type 0} where
  pub Keeps-attempt :
      (m : Action W A) (f : Result A → Action W B)
      → Keeps P m
      → ((r : Result A) → Keeps P (f r))
      → Keeps P (attempt m f)
  unfolding attempt
  Keeps-attempt m f k l = record { at = λ w h. (l (m w).0).at (m w).1 (k.at w h) }

  unless_error-Keeps :
      (f : A → Action W B) (r : Result A) → ((a : A) → Keeps P (f a)) → Keeps P (unless_error f r)
  unfolding unless_error
  unless_error-Keeps f (ok a) l = l a
  unless_error-Keeps f (err e) l = record { at = λ w h. h }

  pub Keeps-bind :
      (m : Action W A) (f : A → Action W B)
      → Keeps P m
      → ((a : A) → Keeps P (f a))
      → Keeps P (m >>= f)
  unfolding ◌>>=◌
  Keeps-bind m f k l = record { at = λ w h. (unless_error-Keeps f (m w).0 l).at (m w).1 (k.at w h) }

-- A read whose answer is known.
pub read_bind :
    {W A B : Type 0} (call : W → Result A) (f : A → Action W B) (w : W) {a : A}
    → call w ≡ ok a
    → (read call >>= f) w ≡ f a w
unfolding ◌>>=◌ read
read_bind call f w h = rw h

pub ruleset keeps_rules = (Keeps-pure, Keeps-fail, Keeps-read, Keeps-if, Keeps-attempt, Keeps-bind)
