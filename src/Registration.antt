-- ===== src/Registration.antt =====
-- How the operator's parts are registered with its manager and its types with their scheme:
-- SetupWithManager of operator/internal/controller/health_controller.go and
-- computesentrypolicy_controller.go, SetupComputeSentryPolicyWebhookWithManager of
-- operator/internal/webhook/v1/computesentrypolicy_webhook.go, and the API group of operator/api/v1.
use compute_sentry.Prelude.{Bool, true, Option, String, List, [], ◌∷◌}

-- What a builder is told before Complete, which is a call of the library and may fail.
pub record WebhookBuilder : Type 0 where
  pub webhook_kind : String
  pub has_validator : Bool
  pub has_defaulter : Bool

pub record ControllerBuilder : Type 0 where
  pub controller_kind : String
  pub controller_name : String

pub record GroupVersion : Type 0 where
  pub group : String
  pub version : String

abbrev pub group_version : GroupVersion
group_version = record { group = "config.aiguard.io"; version = "v1" }

-- The types that `init` registers.
abbrev pub registered_kinds : List String
registered_kinds = "ComputeSentryPolicy" ∷ "ComputeSentryPolicyList" ∷ []

module _ {Error : Type 0} where
  unfoldable pub setup_policy_webhook : (WebhookBuilder → Option Error) → Option Error
  setup_policy_webhook complete =
      complete (record {
        webhook_kind = "ComputeSentryPolicy";
        has_validator = true;
        has_defaulter = true;
      })

  unfoldable pub setup_policy_reconciler : (ControllerBuilder → Option Error) → Option Error
  setup_policy_reconciler complete =
      complete (record {
        controller_kind = "ComputeSentryPolicy";
        controller_name = "computesentrypolicy";
      })

  unfoldable pub setup_health_controller : (ControllerBuilder → Option Error) → Option Error
  setup_health_controller complete =
      complete (record { controller_kind = "Pod"; controller_name = "health" })
