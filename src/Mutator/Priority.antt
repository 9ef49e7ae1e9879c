-- ===== src/Mutator/Priority.antt =====
-- Which policy a pod is injected under.
use compute_sentry.Prelude.{
  Bool, true, false, Option, none, some, String, List, [], ◌∷◌, ◌++◌, ◌≡◌, refl, ap, arith, exists,
  maybe, string_eq, Option-cases, inl, inr,
}
use compute_sentry.Prelude.Map.{Map}
use compute_sentry.Api.{ComputeSentryPolicy}
use compute_sentry.Mutator.{match_policy}

module _ {Selector : Type 0} (matches : Selector → Map String String → Option Bool)
    (labels : Map String String) where
  -- The policy's selector is valid and matches.
  abbrev pub selects : ComputeSentryPolicy Selector → Bool
  selects policy = maybe (matches policy.spec.selector labels) false (λ matched. matched)

  -- A policy of the list that selects the pod, behind others that do not.
  abbrev pub IsFirst : List (ComputeSentryPolicy Selector) → ComputeSentryPolicy Selector → Type 0
  IsFirst policies policy =
      (before : List (ComputeSentryPolicy Selector)) × (after : List (ComputeSentryPolicy Selector))
      × (policies ≡ before ++ policy ∷ after)
      × (exists selects before ≡ false)
      × (selects policy ≡ true)

  abbrev pub IsChoice :
      List (ComputeSentryPolicy Selector) → Option (ComputeSentryPolicy Selector) → Type 0
  IsChoice policies none = exists selects policies ≡ false
  IsChoice policies (some policy) = IsFirst policies policy

  IsChoice-behind :
      (policy : ComputeSentryPolicy Selector) (policies : List (ComputeSentryPolicy Selector))
      (choice : Option (ComputeSentryPolicy Selector))
      → selects policy ≡ false
      → IsChoice policies choice
      → IsChoice (policy ∷ policies) choice
  unfolding exists
  IsChoice-behind policy policies none h k = ground arith
  IsChoice-behind policy policies (some p) h (before, after, e, off, on) =
      (policy ∷ before, after, ap (λ ps. policy ∷ ps) e, ground arith, on)

  -- The webhook chooses the first policy of the list whose selector is valid and matches the pod's
  -- labels, and none where there is no such policy: a policy with an invalid selector is passed over.
  pub match_policy_lem :
      (policies : List (ComputeSentryPolicy Selector))
      → IsChoice policies (match_policy matches labels policies)
  unfolding match_policy exists
  match_policy_lem [] = refl
  match_policy_lem (policy ∷ policies) = elim (Option-cases (matches policy.spec.selector labels)) [
    | inl e ↦ rw e (IsChoice-behind policy policies _ (rw e refl) (match_policy_lem policies))
    | inr (true, e) ↦ rw e ([], policies, refl, refl, rw e refl)
    | inr (false, e) ↦
        rw e (IsChoice-behind policy policies _ (rw e refl) (match_policy_lem policies))
  ]
