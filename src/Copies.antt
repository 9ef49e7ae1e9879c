-- ===== src/Copies.antt =====
-- The generated deep copies, operator/api/v1/zz_generated.deepcopy.go. A pointer to a struct, as
-- receiver or result, is the struct that it leads to, or `none` where it is nil; what the struct's
-- own pointers and slices lead to is in memory.
pub mod Structs
pub mod Views
pub mod Extension
pub mod Elements
pub mod Fresh
pub mod Fidelity
pub mod Sharing
use compute_sentry.Prelude.{ℕ, suc, Option, none, some, List, [], ◌∷◌, map, maybe}
use compute_sentry.Prelude.Map
use compute_sentry.Api.{SpyConfig, Thresholds, EvalConfig}
use compute_sentry.Copies.Structs.{
  Library, Address, address_eq, ActionsStruct, SpecStruct, StatusStruct, PolicyStruct, ListStruct,
  Memory,
}

-- DeepCopyInto of the structs without pointers, and of Actions: `*out = *in`.
unfoldable pub copy_eval_config_into : EvalConfig → EvalConfig
copy_eval_config_into in_ = in_

unfoldable pub copy_spy_config_into : SpyConfig → SpyConfig
copy_spy_config_into in_ = in_

unfoldable pub copy_thresholds_into : Thresholds → Thresholds
copy_thresholds_into in_ = in_

unfoldable pub copy_actions_into : ActionsStruct → ActionsStruct
copy_actions_into in_ = in_

-- DeepCopy of a struct whose copy takes no memory: nil to nil.
unfoldable pub unless_nil {ℓ} : {A : Type ℓ} → (A → A) → Option A → Option A
unless_nil into none = none
unless_nil into (some a) = some (into a)

unfoldable pub copy_eval_config : Option EvalConfig → Option EvalConfig
unfolding unless_nil copy_eval_config_into
copy_eval_config = unless_nil copy_eval_config_into

unfoldable pub copy_spy_config : Option SpyConfig → Option SpyConfig
unfolding unless_nil copy_spy_config_into
copy_spy_config = unless_nil copy_spy_config_into

unfoldable pub copy_thresholds : Option Thresholds → Option Thresholds
unfolding unless_nil copy_thresholds_into
copy_thresholds = unless_nil copy_thresholds_into

unfoldable pub copy_actions : Option ActionsStruct → Option ActionsStruct
unfolding unless_nil copy_actions_into
copy_actions = unless_nil copy_actions_into

module _ (L : Library) where
  unfoldable pub copy_spec_into : SpecStruct L → SpecStruct L
  copy_spec_into in_ = record {
    selector = L.copy_label_selector in_.selector;
    spy_config = in_.spy_config;
    thresholds = in_.thresholds;
    eval_config = in_.eval_config;
    actions = in_.actions;
  }

  unfoldable pub copy_spec : Option (SpecStruct L) → Option (SpecStruct L)
  unfolding unless_nil copy_spec_into
  copy_spec = unless_nil copy_spec_into

  -- A new array of conditions, each element copied into it.
  unfoldable pub copy_conditions : List L.Condition → Memory L → Address × Memory L
  copy_conditions cs m = (
    m.next,
    record m {
      next = suc m.next;
      condition_arrays = Map.insert m.next (map L.copy_condition cs) m.condition_arrays;
    },
  )

  -- What a slice leads to is there in memory.
  unfoldable pub conditions_at : Option Address → Memory L → Option (List L.Condition)
  conditions_at none m = none
  conditions_at (some a) m = Map.lookup a m.condition_arrays

  unfoldable pub policies_at : Option Address → Memory L → Option (List (PolicyStruct L))
  policies_at none m = none
  policies_at (some a) m = Map.lookup a m.policy_arrays

  -- nil stays nil, as the whole struct was assigned.
  unfoldable pub copy_status_into : StatusStruct → Memory L → StatusStruct × Memory L
  unfolding copy_conditions conditions_at
  copy_status_into in_ m =
      maybe (conditions_at in_.conditions m) (in_, m)
        (λ cs. let (a, m') = copy_conditions cs m in (record { conditions = some a }, m'))

  unfoldable pub copy_status : Option StatusStruct → Memory L → Option StatusStruct × Memory L
  unfolding copy_status_into
  copy_status none m = (none, m)
  copy_status (some in_) m = let (out, m') = copy_status_into in_ m in (some out, m')

  unfoldable pub copy_policy_into : PolicyStruct L → Memory L → PolicyStruct L × Memory L
  unfolding copy_spec_into copy_status_into
  copy_policy_into in_ m =
      let (status, m') = copy_status_into in_.status m in
      (
        record {
          type_meta = in_.type_meta;
          object_meta = L.copy_object_meta in_.object_meta;
          spec = copy_spec_into in_.spec;
          status = status;
        },
        m',
      )

  unfoldable pub copy_policy :
      Option (PolicyStruct L) → Memory L → Option (PolicyStruct L) × Memory L
  unfolding copy_policy_into
  copy_policy none m = (none, m)
  copy_policy (some in_) m = let (out, m') = copy_policy_into in_ m in (some out, m')

  -- The loop over the items.
  unfoldable pub copy_each : List (PolicyStruct L) → Memory L → List (PolicyStruct L) × Memory L
  unfolding copy_policy_into
  copy_each [] m = ([], m)
  copy_each (p ∷ ps) m =
      let (p', m') = copy_policy_into p m in let (ps', m'') = copy_each ps m' in (p' ∷ ps', m'')

  -- A new array of policies, each element copied into it.
  unfoldable pub copy_items : List (PolicyStruct L) → Memory L → Address × Memory L
  unfolding copy_each
  copy_items ps m =
      let (ps', m') = copy_each ps (record m { next = suc m.next }) in
      (m.next, record m' { policy_arrays = Map.insert m.next ps' m'.policy_arrays })

  unfoldable pub copy_list_into : ListStruct L → Memory L → ListStruct L × Memory L
  unfolding copy_items policies_at
  copy_list_into in_ m =
      let out : ListStruct L = record in_ { list_meta = L.copy_list_meta in_.list_meta } in
      maybe (policies_at in_.items m) (out, m)
        (λ ps. let (a, m') = copy_items ps m in (record out { items = some a }, m'))

  unfoldable pub copy_list : Option (ListStruct L) → Memory L → Option (ListStruct L) × Memory L
  unfolding copy_list_into
  copy_list none m = (none, m)
  copy_list (some in_) m = let (out, m') = copy_list_into in_ m in (some out, m')

-- `runtime.Object`
pub data Object (L : Library) : Type 0 where
  policy_object : PolicyStruct L → Object L
  list_object : ListStruct L → Object L

module _ (L : Library) where
  -- DeepCopyObject: a nil copy gives the nil interface.
  unfoldable pub copy_policy_object :
      Option (PolicyStruct L) → Memory L → Option (Object L) × Memory L
  unfolding copy_policy
  copy_policy_object in_ m =
      let (c, m') = copy_policy L in_ m in (maybe c none (λ p. some (policy_object p)), m')

  unfoldable pub copy_list_object : Option (ListStruct L) → Memory L → Option (Object L) × Memory L
  unfolding copy_list
  copy_list_object in_ m =
      let (c, m') = copy_list L in_ m in (maybe c none (λ l. some (list_object l)), m')
