-- ===== src/Evaluator/Alternation.antt =====
-- What the cluster has last been told of a pod, through the calls that the evaluator makes.
pub mod Events
pub mod Sweeps
pub mod Runs
use compute_sentry.Prelude.{
  Bool, true, false, ◌&&◌, not, List, [], ◌∷◌, ◌++◌, ◌≡◌, ◌≢◌, ◌∙◌, refl, sym, arith, All, ◌==◌,
  ==_iff, string_eq, if◌then◌else◌,
}
use compute_sentry.Prelude.Text.{Text, text_eq}
use compute_sentry.Evaluator.{HealthEvaluator, PatchCall, flag_of}
use compute_sentry.Evaluator.Recovery.{key_of_call}

module _ (key : Text) where
  -- Whether the pod counts as unhealthy after a call, and after calls.
  unfoldable pub tells : Bool → PatchCall → Bool
  tells reported call = if key_of_call call == key then call.status == "unhealthy" else reported

  unfoldable pub told : Bool → List PatchCall → Bool
  unfolding tells
  told reported [] = reported
  told reported (call ∷ calls) = told (tells reported call) calls

  -- A call that says anything else than "unhealthy" of the pod comes only where the pod counts as unhealthy.
  unfoldable pub is_due : Bool → PatchCall → Bool
  is_due reported call =
      if key_of_call call == key && not (call.status == "unhealthy") then reported else true

  unfoldable pub all_due : Bool → List PatchCall → Bool
  unfolding tells is_due
  all_due reported [] = true
  all_due reported (call ∷ calls) = is_due reported call && all_due (tells reported call) calls

  pub told-append : (b : Bool) (xs ys : List PatchCall) → told b (xs ++ ys) ≡ told (told b xs) ys
  unfolding told
  told-append b [] ys = refl
  told-append b (x ∷ xs) ys = told-append (tells b x) xs ys

  pub all_due-append :
      (b : Bool) (xs ys : List PatchCall)
      → all_due b (xs ++ ys) ≡ (all_due b xs && all_due (told b xs) ys)
  unfolding told all_due
  all_due-append b [] ys = refl
  all_due-append b (x ∷ xs) ys = ground (arith, all_due-append (tells b x) xs ys)

  -- Calls for other pods.
  abbrev pub AreOthers : List PatchCall → Type 0
  AreOthers = All (λ call. key_of_call call ≢ key)

  pub told_others : (b : Bool) (calls : List PatchCall) → AreOthers calls → told b calls ≡ b
  unfolding told tells
  told_others b [] h = refl
  told_others b (call ∷ calls) h =
      ground (arith, ==_iff (key_of_call call) key, h.0, told_others b calls h.1)

  pub all_due_others :
      (b : Bool) (calls : List PatchCall) → AreOthers calls → all_due b calls ≡ true
  unfolding all_due tells is_due
  all_due_others b [] h = refl
  all_due_others b (call ∷ calls) h =
      ground (arith, ==_iff (key_of_call call) key, h.0, all_due_others b calls h.1)

  -- The flag of a pod stands only where the cluster counts the pod as unhealthy.
  abbrev pub IsKnown : HealthEvaluator → Bool → Type 0
  IsKnown e reported = flag_of key e.unhealthy_pods ≡ true → reported ≡ true

  pub record Follows (reported : Bool) (r : HealthEvaluator × List PatchCall) : Type 0 where
    pub due : all_due reported r.1 ≡ true
    pub known : IsKnown r.0 (told reported r.1)

module _ {key : Text} where
  pub Follows-append :
      {b : Bool} {e f : HealthEvaluator} {xs ys : List PatchCall}
      → Follows key b (e, xs)
      → Follows key (told key b xs) (f, ys)
      → Follows key b (f, xs ++ ys)
  Follows-append {b} {e} {f} {xs} {ys} h k = record {
    due = ground (arith, all_due-append key b xs ys, h.due, k.due);
    known = λ flagged. told-append key b xs ys ∙ k.known flagged;
  }

  -- No call for the pod, and its flag only where it was.
  pub others-Follows :
      {b : Bool} (e f : HealthEvaluator) (calls : List PatchCall)
      → AreOthers key calls
      → IsKnown key e b
      → (flag_of key f.unhealthy_pods ≡ true → flag_of key e.unhealthy_pods ≡ true)
      → Follows key b (f, calls)
  others-Follows {b} e f calls others known kept = record {
    due = all_due_others key b calls others;
    known = λ flagged. told_others key b calls others ∙ known (kept flagged);
  }
