-- ===== src/Tests/Copies.antt =====
-- Deep copies of a list with one policy, which has a threshold and a condition.
use compute_sentry.Prelude.{true, false, none, some, String, [], ◌∷◌, ◌≡◌, refl, arith}
use compute_sentry.Prelude.Int.{pos}
use compute_sentry.Prelude.Map
use compute_sentry.Copies.Structs.{
  Library, TaintThresholdCell, PolicyStruct, ListStruct, Memory, address_eq,
}
use compute_sentry.Copies.{copy_policy_into, copy_list_into, conditions_at, policies_at, copy_list}
use compute_sentry.Copies.Views.{view_policy, view_list, number_at, IsOldList}
use compute_sentry.Copies.Fresh.{IsOwnList}
use compute_sentry.Copies.Fidelity.{view-copy_list_into}
use compute_sentry.Copies.Sharing.{write_conditions, write_taint_threshold, copy_policy_into-shares}
use compute_sentry.Tests.Codec.{sample_config}

-- Metadata, selectors and conditions that are texts.
abbrev texts : Library
texts = record {
  TypeMeta = String;
  ObjectMeta = String;
  ListMeta = String;
  LabelSelector = String;
  Condition = String;
  copy_object_meta = λ x. x;
  copy_list_meta = λ x. x;
  copy_label_selector = λ x. x;
  copy_condition = λ x. x;
  object_meta_same = λ x. refl;
  list_meta_same = λ x. refl;
  label_selector_same = λ x. refl;
  condition_same = λ x. refl;
}

abbrev gpu_policy : PolicyStruct texts
gpu_policy = record {
  type_meta = "ComputeSentryPolicy";
  object_meta = "gpu-policy";
  spec = record {
    selector = "app=gpu";
    spy_config = record { enabled = true };
    thresholds = sample_config.thresholds;
    eval_config = sample_config.eval_config;
    actions = record { enable_taint = true; enable_evict = false; node_taint_threshold = some 1 };
  };
  status = record { conditions = some 2 };
}

abbrev threshold_cell : TaintThresholdCell
threshold_cell = record { count_cell = some 0; percentage_cell = none }

abbrev memory : Memory texts
memory = record {
  next = 4;
  numbers = (0, pos 3) ∷ [];
  taint_thresholds = (1, threshold_cell) ∷ [];
  condition_arrays = (2, "Available" ∷ []) ∷ [];
  policy_arrays = (3, gpu_policy ∷ []) ∷ [];
}

abbrev policy_list : ListStruct texts
policy_list = record { type_meta = "ComputeSentryPolicyList"; list_meta = "1"; items = some 3 }

policy_list-IsOldList : IsOldList texts memory policy_list
unfolding Map.lookup policies_at
policy_list-IsOldList = omega arith

view-copy_list_into_example :
    (view_list texts
        (copy_list_into texts policy_list memory).1
        (copy_list_into texts policy_list memory).0
      ≡ view_list texts memory policy_list)
    × (view_list texts (copy_list_into texts policy_list memory).1 policy_list
        ≡ view_list texts memory policy_list)
    × IsOwnList texts 4
        (copy_list_into texts policy_list memory).1
        (copy_list_into texts policy_list memory).0
view-copy_list_into_example =
    view-copy_list_into texts policy_list policy_list memory policy_list-IsOldList
      policy_list-IsOldList

-- Through the copy, the threshold's count is set to nil.
copy_policy_into-shares_example :
    (view_policy texts
        (write_conditions texts
          (copy_policy_into texts gpu_policy memory).0.status.conditions
          []
          (copy_policy_into texts gpu_policy memory).1)
        gpu_policy
      ≡ view_policy texts memory gpu_policy)
    × ((view_policy texts
          (write_taint_threshold texts
            (copy_policy_into texts gpu_policy memory).0.spec.actions.node_taint_threshold
            (record { count_cell = none; percentage_cell = some 0 })
            (copy_policy_into texts gpu_policy memory).1)
          gpu_policy).spec.actions.node_taint_threshold
        ≡ some (record {
          min_unhealthy_pods_count = number_at memory.numbers none;
          min_unhealthy_pods_percentage = number_at memory.numbers (some 0);
        }))
copy_policy_into-shares_example =
    copy_policy_into-shares texts gpu_policy memory 1 ("Available" ∷ []) []
      (record { count_cell = none; percentage_cell = some 0 }) (omega arith) refl
      (unfold conditions_at Map.lookup in refl)

-- The new arrays of a list's copy: the items' first, then the conditions'.
copied_list :
    (copy_list texts (some policy_list) memory).0 ≡ some (record policy_list { items = some 4 })
unfolding copy_list copy_list_into Map.lookup policies_at
copied_list = refl
