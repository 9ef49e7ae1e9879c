-- ===== src/Collector/Bytes.antt =====
-- Little-endian numbers, and the fields of a byte buffer.
use compute_sentry.Prelude.{
  ℕ, zero, suc, ◌+◌, ◌*◌, ◌/◌, ◌%◌, ◌^◌, ◌<◌, ◌≡◌, refl, List, [], ◌∷◌, ◌++◌, length, take, drop,
  arith,
}
use native.Mathlib.Nat.{pow-suc}

unfoldable pub le_value : List ℕ → ℕ
le_value [] = 0
le_value (b ∷ bs) = b + 256 * le_value bs

-- The n low bytes of a number.
unfoldable pub le_bytes : ℕ → ℕ → List ℕ
le_bytes zero v = []
le_bytes (suc n) v = (v % 256) ∷ le_bytes n (v / 256)

-- The n bytes at an offset.
unfoldable pub field : ℕ → ℕ → List ℕ → List ℕ
field offset n buf = take n (drop offset buf)

pub length-le_bytes : (n v : ℕ) → length (le_bytes n v) ≡ n
unfolding le_bytes
length-le_bytes zero v = refl
length-le_bytes (suc n) v = omega (arith, length-le_bytes n (v / 256))

pub le_value-le_bytes : (n v : ℕ) → v < 256 ^ n → le_value (le_bytes n v) ≡ v
unfolding le_value le_bytes
le_value-le_bytes zero v h = omega arith
le_value-le_bytes (suc n) v h =
    let h' : v < 256 ^ n * 256 = rw (← pow-suc) h in
    omega (arith, le_value-le_bytes n (v / 256) (omega arith))

module _ {ℓ} {A : Type ℓ} where
  pub take_exact : (n : ℕ) (xs ys : List A) → length xs ≡ n → take n (xs ++ ys) ≡ xs
  take_exact zero [] ys h = refl
  take_exact zero (x ∷ xs) ys h = absurd (omega arith)
  take_exact (suc n) [] ys h = absurd (omega arith)
  take_exact (suc n) (x ∷ xs) ys h = rw (take_exact n xs ys (omega arith))

  pub drop_past : (n k : ℕ) (xs ys : List A) → length xs ≡ n → drop (n + k) (xs ++ ys) ≡ drop k ys
  drop_past zero k [] ys h = ground arith
  drop_past zero k (x ∷ xs) ys h = absurd (omega arith)
  drop_past (suc n) k [] ys h = absurd (omega arith)
  drop_past (suc n) k (x ∷ xs) ys h =
      let e : suc n + k ≡ suc (n + k) = omega arith in rw e (drop_past n k xs ys (omega arith))

-- The field at offset zero, and one step past a block in front.
pub field_here : (n : ℕ) (xs ys : List ℕ) → length xs ≡ n → field 0 n (xs ++ ys) ≡ xs
unfolding field
field_here n xs ys h = take_exact n xs ys h

pub field_past :
    (n offset k : ℕ) (xs ys : List ℕ)
    → length xs ≡ n
    → field (n + offset) k (xs ++ ys) ≡ field offset k ys
unfolding field
field_past n offset k xs ys h = rw (drop_past n offset xs ys h)
