-- ===== src/Evaluator/Entries.antt =====
-- The first loop of the sweep, entry by entry.
use compute_sentry.Prelude.{
  Bool, false, Option, none, some, List, [], ◌∷◌, ◌≡◌, refl, arith, exists, ==_iff, maybe, ◌==◌,
}
use compute_sentry.Prelude.Int.{ℤ}
use compute_sentry.Prelude.Text.{Text, text_eq}
use compute_sentry.Prelude.Map
use compute_sentry.Prelude.Map.{Map, HasKeysOnce}
use compute_sentry.Evaluator.{HealthEvaluator, valid_times, keep_or_recover, sweep_violations}

-- Whether a key is among `podsToRecover`.
abbrev pub is_listed : Text → List Text → Bool
is_listed key = exists (λ j. j == key)

-- A list of times as the entry that a map keeps of it: an empty one is deleted.
abbrev pub unless_empty : List ℤ → Option (List ℤ)
unless_empty [] = none
unless_empty (t ∷ times) = some (t ∷ times)

module _ (e : HealthEvaluator) (now : ℤ) where
  abbrev kept : Map Text (List ℤ) → Map Text (List ℤ)
  kept m = (sweep_violations e now m).0

  abbrev recovered : Map Text (List ℤ) → List Text
  recovered m = (sweep_violations e now m).1

  -- The entry that the first loop leaves at a key.
  pub lookup-kept :
      (key : Text) (m : Map Text (List ℤ))
      → HasKeysOnce m
      → Map.lookup key (sweep_violations e now m).0
        ≡ maybe (Map.lookup key m) none (λ times. unless_empty (valid_times e key now times))
  unfolding sweep_violations keep_or_recover Map.lookup
  lookup-kept key [] h = refl
  lookup-kept key ((j, times) ∷ m) h = ground (arith, lookup-kept key m h.1, ==_iff j key)

  -- A key is listed for recovery exactly if its entry has no valid time and is quiet.
  pub is_listed-recovered :
      (key : Text) (m : Map Text (List ℤ))
      → HasKeysOnce m
      → is_listed key (sweep_violations e now m).1
        ≡ maybe (Map.lookup key m) false (λ times. (keep_or_recover e key now times).1)
  unfolding sweep_violations keep_or_recover Map.lookup exists
  is_listed-recovered key [] h = refl
  is_listed-recovered key ((j, times) ∷ m) h =
      ground (arith, is_listed-recovered key m h.1, ==_iff j key)
