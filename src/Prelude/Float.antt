-- ===== src/Prelude/Float.antt =====
-- The float64 values that the operator computes: quotients of counts and their hundredfold, rounded
-- to 53 bits, half to even. No other float64 (negative, infinite, subnormal) can come up there.
use compute_sentry.Prelude.Tests.{ltb, leb, nat_beq, if◌then◌else◌}
use compute_sentry.Prelude.Int.{ℤ, pos, negsuc}
use Prim.Native.Nat.{ℕ, zero, suc, ◌+◌, ◌-◌, ◌*◌, ◌/◌, ◌%◌, ◌^◌}
use mathlib.Core.Bool.{Bool, true}

-- mantissa / 2 ^ scale
pub record Float64 : Type 0 where
  pub mantissa : ℕ
  pub scale : ℕ

-- The integer nearest to a / b, the even one of two.
unfoldable pub round_div : ℕ → ℕ → ℕ
round_div a b =
    let q = a / b in
    let r = a % b in
    if ltb (2 * r) b
    then q
    else if ltb b (2 * r)
    then q + 1
    else if nat_beq (q % 2) 0
    then q
    else q + 1

-- The first scale, from `k` on, at which a / b has 53 bits.
unfoldable pub scale_up : ℕ → ℕ → ℕ → ℕ → ℕ
scale_up zero k a b = k
scale_up (suc fuel) k a b =
    let next = scale_up fuel (k + 1) a b in if ltb (a * 2 ^ k) (2 ^ 52 * b) then next else k

abbrev pub scale_fuel : ℕ
scale_fuel = 128

-- float64(a) / float64(b), for 0 < b and a ≤ b
unfoldable pub quotient : ℕ → ℕ → Float64
unfolding scale_up round_div
quotient zero b = record { mantissa = 0; scale = 0 }
quotient (suc a) b =
    let k = scale_up scale_fuel 0 (suc a) b in
    record { mantissa = round_div (suc a * 2 ^ k) b; scale = k }

-- The first number of bits, from `s` on, whose loss leaves 53.
unfoldable pub scale_down : ℕ → ℕ → ℕ → ℕ
scale_down zero s n = s
scale_down (suc fuel) s n =
    let next = scale_down fuel (s + 1) n in if ltb n (2 ^ 53 * 2 ^ s) then s else next

-- x * 100, for a quotient x
unfoldable pub hundredfold : Float64 → Float64
unfolding scale_down round_div
hundredfold x =
    let s = scale_down 7 0 (x.mantissa * 100) in
    record { mantissa = round_div (x.mantissa * 100) (2 ^ s); scale = x.scale - s }

-- x >= float64(n)
unfoldable pub is_at_least : Float64 → ℤ → Bool
is_at_least x (pos n) = leb (n * 2 ^ x.scale) x.mantissa
is_at_least x (negsuc n) = true

-- The float64 nearest to 0.05.
abbrev pub one_twentieth : Float64
one_twentieth = record { mantissa = 7_205_759_403_792_794; scale = 57 }

-- x > y
unfoldable pub is_above : Float64 → Float64 → Bool
is_above x y = ltb (y.mantissa * 2 ^ x.scale) (x.mantissa * 2 ^ y.scale)
