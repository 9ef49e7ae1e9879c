-- ===== src/Copies/Views.antt =====
-- What the structs of a policy hold, read through memory.
use compute_sentry.Prelude.{◌<◌, Option, none, some, List, map, maybe, All}
use compute_sentry.Prelude.Int.{ℤ}
use compute_sentry.Prelude.Map
use compute_sentry.Api.{NodeTaintThreshold, Actions, ComputeSentryPolicySpec}
use compute_sentry.Copies.Structs.{
  Library, Address, address_eq, TaintThresholdCell, ActionsStruct, SpecStruct, PolicyStruct,
  ListStruct, Memory,
}
use compute_sentry.Copies.{conditions_at, policies_at}

pub record PolicyView (L : Library) : Type 0 where
  pub type_meta : L.TypeMeta
  pub object_meta : L.ObjectMeta
  pub spec : ComputeSentryPolicySpec L.LabelSelector
  pub conditions : Option (List L.Condition)

pub record ListView (L : Library) : Type 0 where
  pub type_meta : L.TypeMeta
  pub list_meta : L.ListMeta
  pub items : Option (List (PolicyView L))

unfoldable pub number_at : Map.Map Address ℤ → Option Address → Option ℤ
number_at numbers none = none
number_at numbers (some a) = Map.lookup a numbers

unfoldable pub taint_threshold_at :
    Map.Map Address ℤ
    → Map.Map Address TaintThresholdCell
    → Option Address
    → Option NodeTaintThreshold
unfolding number_at
taint_threshold_at numbers cells none = none
taint_threshold_at numbers cells (some a) = maybe (Map.lookup a cells) none (λ t. some (record {
  min_unhealthy_pods_count = number_at numbers t.count_cell;
  min_unhealthy_pods_percentage = number_at numbers t.percentage_cell;
}))

module _ (L : Library) (m : Memory L) where
  unfoldable pub view_actions : ActionsStruct → Actions
  unfolding taint_threshold_at
  view_actions a = record {
    enable_taint = a.enable_taint;
    enable_evict = a.enable_evict;
    node_taint_threshold = taint_threshold_at m.numbers m.taint_thresholds a.node_taint_threshold;
  }

  unfoldable pub view_spec : SpecStruct L → ComputeSentryPolicySpec L.LabelSelector
  unfolding view_actions
  view_spec s = record {
    selector = s.selector;
    spy_config = s.spy_config;
    thresholds = s.thresholds;
    eval_config = s.eval_config;
    actions = view_actions s.actions;
  }

  unfoldable pub view_policy : PolicyStruct L → PolicyView L
  unfolding view_spec conditions_at
  view_policy p = record {
    type_meta = p.type_meta;
    object_meta = p.object_meta;
    spec = view_spec p.spec;
    conditions = conditions_at L p.status.conditions m;
  }

  unfoldable pub view_items : Option (List (PolicyStruct L)) → Option (List (PolicyView L))
  unfolding view_policy
  view_items none = none
  view_items (some ps) = some (map view_policy ps)

  unfoldable pub view_list : ListStruct L → ListView L
  unfolding view_items policies_at
  view_list l = record {
    type_meta = l.type_meta;
    list_meta = l.list_meta;
    items = view_items (policies_at L l.items m);
  }

-- A slice whose array was made before an address was free.
abbrev pub IsBelow : Address → Option Address → Type 0
IsBelow next none = Unit
IsBelow next (some a) = a < next

abbrev pub IsOldPolicy : {L : Library} → Address → PolicyStruct L → Type 0
IsOldPolicy next p = IsBelow next p.status.conditions

-- The list and its items were made before; `AllBelow` speaks of what the slice leads to.
abbrev pub AllBelow : {L : Library} → Address → Option (List (PolicyStruct L)) → Type 0
AllBelow next none = Unit
AllBelow next (some ps) = All (IsOldPolicy next) ps

abbrev pub IsOldList : (L : Library) → Memory L → ListStruct L → Type 0
unfolding policies_at
IsOldList L m l = IsBelow m.next l.items × AllBelow m.next (policies_at L l.items m)
