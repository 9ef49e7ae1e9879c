-- ===== src/Policies.antt =====
-- The webhooks of the policy resource, operator/internal/webhook/v1/computesentrypolicy_webhook.go, its
-- reconciler, operator/internal/controller/computesentrypolicy_controller.go.
use compute_sentry.Prelude.{Bool, false, Option, none, some, String, List, [], maybe}
use compute_sentry.Api.{ComputeSentryPolicy}

module _ {Error : Type 0} {Selector : Type 0} where
  -- Default changes the object that it is given and returns an error or nil.
  unfoldable pub default :
      ComputeSentryPolicy Selector → ComputeSentryPolicy Selector × Option Error
  default obj = (obj, none)

  -- The validators return warnings with an error or nil.
  unfoldable pub validate_create : ComputeSentryPolicy Selector → List String × Option Error
  validate_create obj = ([], none)

  unfoldable pub validate_update :
      (old new : ComputeSentryPolicy Selector) → List String × Option Error
  validate_update old new = ([], none)

  unfoldable pub validate_delete : ComputeSentryPolicy Selector → List String × Option Error
  validate_delete obj = ([], none)

-- ctrl.Result
pub record Result : Type 0 where
  pub requeue : Bool

-- Reconcile of a policy: nothing is read or written.
unfoldable pub reconcile_policy : {Request Error : Type 0} → Request → Result × Option Error
reconcile_policy req = (record { requeue = false }, none)

module _ (Error : Type 0) {Selector : Type 0} where
  -- An object on its way into the cluster: the defaulter, then the validator of its operation, which
  -- has the old object where there is one; `none` where one of them refuses it.
  unfoldable pub admit :
      Option (ComputeSentryPolicy Selector)
      → ComputeSentryPolicy Selector
      → Option (ComputeSentryPolicy Selector)
  unfolding default validate_create validate_update
  admit old new =
      let (defaulted, failure) = default {Error = Error} new in
      let verdict =
        maybe old (validate_create {Error = Error} defaulted)
          (λ o. validate_update {Error = Error} o defaulted) in
      maybe failure (maybe verdict.1 (some defaulted) (λ e. none)) (λ e. none)
