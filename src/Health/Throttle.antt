-- ===== src/Health/Throttle.antt =====
-- The float64 test of the eviction throttle, and the test on whole numbers.
use native.Mathlib.Nat.{
  div-add-mod, mod-lt, le_of_lt, mul-le-mul_right, mul-le-mul_left, le_of_mul-le-mul_left,
  pow-le-pow_right,
}
use compute_sentry.Prelude.{
  ℕ, zero, suc, ◌+◌, ◌*◌, ◌/◌, ◌%◌, ◌^◌, ◌≤◌, ◌<◌, ◌≡◌, ◌⊎◌, inl, inr, ◌&&◌, ltb, arith, Bool-cases,
  ltb→lt, lt→ltb, le_of_not-ltb, not-ltb_of_le, if_ind,
}
use compute_sentry.Prelude.Float.{
  round_div, scale_up, scale_fuel, quotient, is_above, one_twentieth,
}
use compute_sentry.Health.{is_throttled}

pub lt_of_not-le : {a b : ℕ} → ¬ (b ≤ a) → a < b
lt_of_not-le h = omega arith

-- A number whose product with b is off from a by at most half of b.
abbrev pub IsNear : ℕ → ℕ → ℕ → Type 0
IsNear a b m = (2 * (b * m) ≤ 2 * a + b) × (2 * a ≤ 2 * (b * m) + b)

below_of_IsNear : (a b q r : ℕ) → b * q + r ≡ a → 2 * r ≤ b → IsNear a b q
below_of_IsNear a b q r whole small = omega arith

above_of_IsNear : (a b q r : ℕ) → b * q + r ≡ a → r < b → b ≤ 2 * r → IsNear a b (q + 1)
above_of_IsNear a b q r whole less large = omega arith

pub round_div-IsNear : (a b : ℕ) → 0 < b → IsNear a b (round_div a b)
unfolding round_div
round_div-IsNear a b h =
    let r = a % b in
    let below = below_of_IsNear a b (a / b) r (div-add-mod a b) in
    let above = above_of_IsNear a b (a / b) r (div-add-mod a b) (mod-lt a h) in
    elim (Bool-cases (ltb (2 * r) b)) [
      | inl small ↦ rw small (below (le_of_lt (ltb→lt _ _ small)))
      | inr large ↦
          let up = above (le_of_not-ltb _ _ large) in
          elim (Bool-cases (ltb b (2 * r))) [
            | inl more ↦ rw (large, more) up
            | inr tie ↦
                rw (large, tie)
                  (if_ind (IsNear a b) _ {x = a / b} {y = a / b + 1} (below (le_of_not-ltb _ _ tie))
                    up)
          ]
    ]

-- The loop ends at a scale with 53 bits, or with its fuel spent.
scale_up_lem :
    (fuel k a b : ℕ) → (2 ^ 52 * b ≤ a * 2 ^ scale_up fuel k a b) ⊎ (scale_up fuel k a b ≡ k + fuel)
unfolding scale_up
scale_up_lem zero k a b = inr (omega arith)
scale_up_lem (suc fuel) k a b = elim (Bool-cases (ltb (a * 2 ^ k) (2 ^ 52 * b))) [
  | inl more ↦
      rw more (elim (scale_up_lem fuel (k + 1) a b) [
        | inl wide ↦ inl wide
        | inr spent ↦ inr (omega arith)
      ])
  | inr stop ↦ rw stop (inl (le_of_not-ltb _ _ stop))
]

-- The fuel is enough: a quotient of counts below 2 ^ 76 is scaled to 53 bits.
pub scale_up_wide : (a b : ℕ) → 0 < a → b < 2 ^ 76 → 2 ^ 52 * b ≤ a * 2 ^ scale_up scale_fuel 0 a b
scale_up_wide a b h k = elim (scale_up_lem scale_fuel 0 a b) [
  | inl wide ↦ wide
  | inr spent ↦ let e : scale_up scale_fuel 0 a b ≡ 128 = spent in rw e (omega arith)
]

-- The two directions, over the number of unhealthy pods u, of pods t, the scale's power p and the
-- rounded mantissa m.
module _ (u t p m : ℕ) (near : IsNear (u * p) t m) (pods : 0 < t) where
  above_twentieth : t < 2 ^ 40 → 2 ^ 52 ≤ p → t < 20 * u → 7_205_759_403_792_794 * p < m * 2 ^ 57
  above_twentieth few wide more =
      let small : t * p ≤ 2 ^ 40 * p = mul-le-mul_right p (le_of_lt few) in
      let scaled : (t + 1) * p ≤ 20 * u * p = mul-le-mul_right p (omega arith) in
      lt_of_not-le λ low.
        let times : t * (m * 2 ^ 57) ≤ t * (7_205_759_403_792_794 * p) = mul-le-mul_left t low in
        omega arith

  below_twentieth :
      (p ≡ 2 ^ 57) ⊎ (2 ^ 58 ≤ p) → 20 * u ≤ t → m * 2 ^ 57 ≤ 7_205_759_403_792_794 * p
  below_twentieth scale few =
      let scaled : 20 * u * p ≤ t * p = mul-le-mul_right p few in
      let small : 20 * m ≤ p + 10 = le_of_mul-le-mul_left {k = t} (omega arith) pods in omega arith

-- The scale of a quotient of at most 1, and of at most a twentieth.
pub scale_of_part : (u t p : ℕ) → 0 < u → u ≤ t → 2 ^ 52 * t ≤ u * p → 2 ^ 52 ≤ p
scale_of_part u t p some part wide =
    le_of_mul-le-mul_left {k = u}
      (let grown : 2 ^ 52 * u ≤ 2 ^ 52 * t = mul-le-mul_left (2 ^ 52) part in omega arith) some

scale_of_twentieth : (u t p : ℕ) → 0 < u → 20 * u ≤ t → 2 ^ 52 * t ≤ u * p → 20 * 2 ^ 52 ≤ p
scale_of_twentieth u t p some part wide =
    le_of_mul-le-mul_left {k = u}
      (let grown : 2 ^ 52 * (20 * u) ≤ 2 ^ 52 * t = mul-le-mul_left (2 ^ 52) part in omega arith)
      some

power_cases : (k : ℕ) → 20 * 2 ^ 52 ≤ 2 ^ k → (2 ^ k ≡ 2 ^ 57) ⊎ (2 ^ 58 ≤ 2 ^ k)
power_cases k h = elim (three k) [
  | inl low ↦
      let small : 2 ^ k ≤ 2 ^ 56 = pow-le-pow_right {n = 2} (omega arith) low in
      absurd (omega arith)
  | inr (inl same) ↦ inl (rw same)
  | inr (inr high) ↦ inr (pow-le-pow_right {n = 2} (omega arith) high)
]
  where
    three : (k : ℕ) → (k ≤ 56) ⊎ ((k ≡ 57) ⊎ (58 ≤ k))
    three k = omega arith

-- The float64 test of a ratio over 0.05 decides on the whole numbers, for up to 2 ^ 40 pods.
is_above_lem :
    (u t : ℕ) → u ≤ t → 0 < t → t < 2 ^ 40 → is_above (quotient u t) one_twentieth ≡ ltb t (20 * u)
unfolding is_above quotient
is_above_lem zero t part pods few = ground arith
is_above_lem (suc v) t part pods few =
    let u = suc v in
    let k = scale_up scale_fuel 0 u t in
    let wide = scale_up_wide u t (omega arith) (omega arith) in
    let near = round_div-IsNear (u * 2 ^ k) t pods in
    elim (Bool-cases (ltb t (20 * u))) [
      | inl more ↦ rw more (
          lt→ltb _ _ (
            above_twentieth u t (2 ^ k) (round_div (u * 2 ^ k) t) near pods few
              (scale_of_part u t (2 ^ k) (omega arith) part wide) (ltb→lt _ _ more)))
      | inr less ↦
          let fewer = le_of_not-ltb _ _ less in
          rw less (
            not-ltb_of_le _ _ (
              below_twentieth u t (2 ^ k) (round_div (u * 2 ^ k) t) near pods
                (power_cases k (scale_of_twentieth u t (2 ^ k) (omega arith) fewer wide)) fewer))
    ]

-- Among up to 2 ^ 40 pods, an eviction is put off exactly if more than one pod is unhealthy and more
-- than a twentieth of the pods are, with no error from the rounding of the quotient.
pub is_throttled_lem :
    (unhealthy total : ℕ)
    → unhealthy ≤ total
    → total < 2 ^ 40
    → is_throttled unhealthy total ≡ (ltb total (20 * unhealthy) && ltb 1 unhealthy)
unfolding is_throttled
is_throttled_lem unhealthy zero part few = ground arith
is_throttled_lem unhealthy (suc t) part few =
    ground (arith, is_above_lem unhealthy (suc t) part (omega arith) few)
