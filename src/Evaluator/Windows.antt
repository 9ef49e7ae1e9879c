-- ===== src/Evaluator/Windows.antt =====
-- The arithmetic of a pod's window, in int64 nanoseconds.
use compute_sentry.Prelude.{ℕ, zero, suc, ◌+◌, ◌*◌, ◌^◌, ◌<◌, some, ◌≡◌, ◌∙◌, refl, ap, arith}
use compute_sentry.Prelude.Int.{ℤ, pos, negsuc, neg, ◌+ℤ◌, ◌*ℤ◌, ltb_ℤ, wrap64, wrap64_fits}
use compute_sentry.Prelude.Text.{Text, text_eq}
use compute_sentry.Prelude.Map
use compute_sentry.Api.{GovernanceConfig}
use compute_sentry.Evaluator.{HealthEvaluator, seconds, is_within, pod_window, recovery_cutoff}

billions : (w : ℕ) → pos w *ℤ pos 1_000_000_000 ≡ pos (w * 1_000_000_000)
unfolding ◌*ℤ◌
billions w = ground arith

seconds_exact : (w : ℕ) → w * 3_000_000_000 < 2 ^ 63 → seconds (pos w) ≡ pos (w * 1_000_000_000)
unfolding seconds
seconds_exact w h =
    ap wrap64 (billions w) ∙ wrap64_fits (pos (w * 1_000_000_000)) (omega (arith, h))

negative : (m : ℕ) → neg (pos (suc m)) ≡ negsuc m
unfolding neg
negative m = ground arith

neg_fits : (m : ℕ) → m < 2 ^ 63 → wrap64 (neg (pos m)) ≡ neg (pos m)
neg_fits zero h = unfold neg wrap64 in refl
neg_fits (suc m) h = rw (negative m) (wrap64_fits (negsuc m) (omega (arith, h)))

three_times : (m : ℕ) → negsuc m *ℤ pos 3 ≡ negsuc (m * 3 + 2)
unfolding ◌*ℤ◌
three_times m = ground arith

tripled : (m : ℕ) → m * 3 < 2 ^ 63 → wrap64 (neg (pos m) *ℤ pos 3) ≡ neg (pos (m * 3))
tripled zero h = unfold neg ◌*ℤ◌ wrap64 in refl
tripled (suc m) h =
    let size : suc m * 3 ≡ suc (m * 3 + 2) = omega arith in
    rw (size, negative m, negative (m * 3 + 2), three_times m)
      (wrap64_fits (negsuc (m * 3 + 2)) (omega (arith, h)))

shift : (a : ℤ) (m : ℕ) → (a +ℤ neg (pos m)) +ℤ pos m ≡ a
unfolding neg ◌+ℤ◌
shift a m = ground arith

within_shift : (a t : ℤ) (m : ℕ) → ltb_ℤ (a +ℤ neg (pos m)) t ≡ ltb_ℤ a (t +ℤ pos m)
unfolding neg ◌+ℤ◌
within_shift a t m = ground arith

-- A window of up to 97 years does not overflow: where the pod's configuration, which is cached, has a
-- window of seconds of which three times as many nanoseconds fit into an int64, a time is within the
-- window exactly if the whole length of the window later is after now, and the recovery cutoff lies three
-- such lengths before now.
pub window-exact :
    (e : HealthEvaluator) (key : Text) (config : GovernanceConfig) (w : ℕ) (now t : ℤ)
    → Map.lookup key e.pod_configs ≡ some config
    → config.eval_config.window_size ≡ pos w
    → w * 3_000_000_000 < 2 ^ 63
    → (is_within now (pod_window e key) t ≡ ltb_ℤ now (t +ℤ pos (w * 1_000_000_000)))
      × (recovery_cutoff e key now +ℤ pos (w * 3_000_000_000) ≡ now)
unfolding is_within recovery_cutoff pod_window
window-exact e key config w now t cached set fits =
    let length : seconds config.eval_config.window_size ≡ pos (w * 1_000_000_000) =
      ap seconds set ∙ seconds_exact w fits in
    let whole : w * 1_000_000_000 < 2 ^ 63 = omega (arith, fits) in
    let thrice : w * 1_000_000_000 * 3 < 2 ^ 63 = omega (arith, fits) in
    let size : w * 3_000_000_000 ≡ w * 1_000_000_000 * 3 = omega arith in
    (
      rw (cached, length, neg_fits (w * 1_000_000_000) whole)
          (within_shift now t (w * 1_000_000_000)),
      rw
          (
            cached,
            length,
            neg_fits (w * 1_000_000_000) whole,
            tripled (w * 1_000_000_000) thrice,
            size,
          )
          (shift now (w * 1_000_000_000 * 3)),
    )
