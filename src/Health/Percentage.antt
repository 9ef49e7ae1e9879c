-- ===== src/Health/Percentage.antt =====
-- The float64 test of the taint threshold's percentage, and the test on whole numbers.
use native.Mathlib.Nat.{
  le_of_lt, mul-le-mul_right, mul-le-mul_left, pow-le-pow_right, pow-suc, one-le-pow, le_trans,
}
use native.Mathlib.Numerals.{towards_suc}
use compute_sentry.Prelude.{
  ℕ, zero, suc, ◌+◌, ◌-◌, ◌*◌, ◌^◌, ◌≤◌, ◌<◌, ◌≡◌, ◌≢◌, inl, inr, ◌&&◌, ltb, leb, arith, Bool-cases,
  ap, sym, ◌∙◌, refl, some, ltb→lt, leb→le, le_of_not-ltb, true, false,
}
use compute_sentry.Prelude.Int.{pos}
use compute_sentry.Prelude.Float.{
  round_div, scale_up, scale_down, scale_fuel, quotient, hundredfold, is_at_least,
}
use compute_sentry.Api.{NodeTaintThreshold}
use compute_sentry.Health.{NodePodsHealthStatus, meets_percentage}
use compute_sentry.Health.Throttle.{
  lt_of_not-le, IsNear, round_div-IsNear, scale_up_wide, scale_of_part,
}

scale_down-le : (fuel s n : ℕ) → scale_down fuel s n ≤ s + fuel
unfolding scale_down
scale_down-le zero s n = omega arith
scale_down-le (suc fuel) s n = ground (arith, scale_down-le fuel (s + 1) n)

pow_split : (r s : ℕ) → 2 ^ (r + s) ≡ 2 ^ r * 2 ^ s
pow_split r zero = simp towards_suc (omega arith)
pow_split r (suc s) =
    let ih : 2 ^ (r + s) * 2 ≡ 2 ^ r * 2 ^ s * 2 = ap (λ (n : ℕ). n * 2) (pow_split r s) in
    let next : r + suc s ≡ suc (r + s) = omega arith in
    rw (next, pow-suc 2 (r + s), pow-suc 2 s) (omega arith)

le→leb : (a b : ℕ) → a ≤ b → leb a b ≡ true
le→leb a b h = ground arith

not-leb_of_lt : (a b : ℕ) → b < a → leb a b ≡ false
not-leb_of_lt a b h = ground arith

lt_of_not-leb : (a b : ℕ) → leb a b ≡ false → b < a
lt_of_not-leb a b h = ground arith

lt_of : {a b : ℕ} → a ≤ b → b ≢ a → a < b
lt_of h n = grind arith

next_le : {a b : ℕ} → a < b → a + 1 ≤ b
next_le h = omega arith

-- Over the number of unhealthy pods u, of pods t, the percentage p, the quotient's mantissa m and power
-- P, the hundredfold's mantissa M, and the powers that P splits into, S for the bits that are lost.
module _ (u t p m M P R S : ℕ) (near : IsNear (u * P) t m) (near_hundred : IsNear (m * 100) S M)
    (split : P ≡ R * S) (lost : S ≤ 128) (few : t < 2 ^ 40) (wide : 2 ^ 52 ≤ P) where
  reaches : p * t < 100 * u → p * R ≤ M
  reaches more = elim (Bool-cases (ltb M (p * R))) [
    | inr high ↦ le_of_not-ltb _ _ high
    | inl low ↦
        let short : S * (M + 1) ≤ S * (p * R) = mul-le-mul_left S (next_le (ltb→lt _ _ low)) in
        let short_times : t * (S * (M + 1)) ≤ t * (S * (p * R)) = mul-le-mul_left t short in
        let hundred : t * (2 * (m * 100)) ≤ t * (2 * (S * M) + S) =
          mul-le-mul_left t near_hundred.1 in
        let whole : (p * t + 1) * P ≤ 100 * u * P = mul-le-mul_right P (next_le more) in
        let parts : p * t * P ≡ p * t * (R * S) = ap (λ (n : ℕ). p * t * n) split in
        absurd (omega arith)
  ]

  misses : 100 * u < p * t → M < p * R
  misses less = lt_of_not-le λ high.
      let enough : S * (p * R) ≤ S * M = mul-le-mul_left S high in
      let enough_times : t * (S * (p * R)) ≤ t * (S * M) = mul-le-mul_left t enough in
      let hundred : t * (2 * (S * M)) ≤ t * (2 * (m * 100) + S) =
        mul-le-mul_left t near_hundred.0 in
      let whole : (100 * u + 1) * P ≤ p * t * P = mul-le-mul_right P (next_le less) in
      let parts : p * t * P ≡ p * t * (R * S) = ap (λ (n : ℕ). p * t * n) split in
      let bits : t * S ≤ t * 128 = mul-le-mul_left t lost in omega arith

-- A power that is large enough splits at any number of bits up to seven.
power_at_least : (k : ℕ) → 2 ^ 52 ≤ 2 ^ k → 7 ≤ k
power_at_least k h = elim (Bool-cases (ltb k 7)) [
  | inr high ↦ le_of_not-ltb _ _ high
  | inl low ↦
      let small : 2 ^ k ≤ 2 ^ 7 =
        pow-le-pow_right {n = 2} (omega arith) (le_of_lt (ltb→lt _ _ low)) in
      absurd (omega arith)
]

rejoin : (k s : ℕ) → s ≤ k → k ≡ k - s + s
rejoin k s h = omega arith

split_at : (k s : ℕ) → s ≤ k → 2 ^ k ≡ 2 ^ (k - s) * 2 ^ s
split_at k s h = ap (λ (n : ℕ). 2 ^ n) (rejoin k s h) ∙ pow_split (k - s) s

no_unhealthy : (t p : ℕ) → 0 < t → 0 ≢ p * t → leb (p * 1) 0 ≡ leb (p * t) 0
no_unhealthy t zero pods apart = absurd (apart (omega arith))
no_unhealthy t (suc q) pods apart =
    let grown : 1 * t ≤ suc q * t = mul-le-mul_right t (omega arith) in
    not-leb_of_lt (suc q * 1) 0 (omega arith) ∙ sym (not-leb_of_lt (suc q * t) 0 (omega arith))

-- Where the percentage is not met exactly, the float64 test decides on the whole numbers.
is_at_least_lem :
    (u t p : ℕ)
    → u ≤ t
    → 0 < t
    → t < 2 ^ 40
    → 100 * u ≢ p * t
    → is_at_least (hundredfold (quotient u t)) (pos p) ≡ leb (p * t) (100 * u)
unfolding is_at_least quotient hundredfold
is_at_least_lem zero t p part pods few apart = no_unhealthy t p pods apart
is_at_least_lem (suc v) t p part pods few apart =
    let u = suc v in
    let k = scale_up scale_fuel 0 u t in
    let m = round_div (u * 2 ^ k) t in
    let s = scale_down 7 0 (m * 100) in
    let wide =
      scale_of_part u t (2 ^ k) (omega arith) part
        (scale_up_wide u t (omega arith) (omega arith)) in
    let bits : s ≤ 7 = scale_down-le 7 0 (m * 100) in
    let few_bits : 2 ^ s ≤ 2 ^ 7 = pow-le-pow_right {n = 2} (omega arith) bits in
    let near = round_div-IsNear (u * 2 ^ k) t pods in
    let near_hundred = round_div-IsNear (m * 100) (2 ^ s) (one-le-pow s 2 (omega arith)) in
    let split = split_at k s (le_trans bits (power_at_least k wide)) in
    elim (Bool-cases (leb (p * t) (100 * u))) [
      | inl more ↦ rw more (
          le→leb _ _ (
            reaches u t p m (round_div (m * 100) (2 ^ s)) (2 ^ k) (2 ^ (k - s)) (2 ^ s) near
              near_hundred split few_bits few wide (lt_of (leb→le _ _ more) apart)))
      | inr less ↦ rw less (
          not-leb_of_lt _ _ (
            misses u t p m (round_div (m * 100) (2 ^ s)) (2 ^ k) (2 ^ (k - s)) (2 ^ s) near
              near_hundred split few_bits few wide (lt_of_not-leb _ _ less)))
    ]

-- Among up to 2 ^ 40 pods, if the unhealthy ones are not exactly the percentage of the threshold, which is
-- not negative, the threshold's test is the one on whole numbers: some pod is there, and the unhealthy
-- ones are at least the percentage of all.
pub meets_percentage_lem :
    (threshold : NodeTaintThreshold) (status : NodePodsHealthStatus) (p : ℕ)
    → threshold.min_unhealthy_pods_percentage ≡ some (pos p)
    → status.unhealthy_pods ≤ status.total_pods
    → status.total_pods < 2 ^ 40
    → 100 * status.unhealthy_pods ≢ p * status.total_pods
    → meets_percentage threshold status
      ≡ (ltb 0 status.total_pods && leb (p * status.total_pods) (100 * status.unhealthy_pods))
unfolding meets_percentage
meets_percentage_lem threshold status p set part few apart =
    elim (Bool-cases (ltb 0 status.total_pods)) [
      | inl pods ↦
          rw (set, pods)
            (is_at_least_lem status.unhealthy_pods status.total_pods p part (ltb→lt _ _ pods) few
              apart)
      | inr none_there ↦ rw (set, none_there) refl
    ]
