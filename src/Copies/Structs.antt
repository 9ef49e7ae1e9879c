-- ===== src/Copies/Structs.antt =====
-- What the deep copies of operator/api/v1/zz_generated.deepcopy.go call: the types of apimachinery's
-- meta/v1 with their DeepCopyInto, and the memory that the program's own structs point to.
use compute_sentry.Prelude.{Bool, ℕ, Option, List, ◌≡◌, Eq, nat_beq, nat_beq_iff}
use compute_sentry.Prelude.Int.{ℤ}
use compute_sentry.Prelude.Map.{Map}
use compute_sentry.Api.{SpyConfig, Thresholds, EvalConfig}

-- Values of the library stand for what they hold, so its copies give the value that they are given.
pub record Library : Type 1 where
  pub TypeMeta : Type 0
  pub ObjectMeta : Type 0
  pub ListMeta : Type 0
  pub LabelSelector : Type 0
  pub Condition : Type 0
  pub copy_object_meta : ObjectMeta → ObjectMeta
  pub copy_list_meta : ListMeta → ListMeta
  pub copy_label_selector : LabelSelector → LabelSelector
  pub copy_condition : Condition → Condition
  pub object_meta_same : (x : ObjectMeta) → copy_object_meta x ≡ x
  pub list_meta_same : (x : ListMeta) → copy_list_meta x ≡ x
  pub label_selector_same : (x : LabelSelector) → copy_label_selector x ≡ x
  pub condition_same : (x : Condition) → copy_condition x ≡ x

abbrev pub Address : Type 0
Address = ℕ

instance abbrev pub address_eq : Eq Address
address_eq = record { is_same = nat_beq; same_iff = nat_beq_iff }

-- `*NodeTaintThreshold`, a struct of two `*int32`
pub record TaintThresholdCell : Type 0 where
  pub count_cell : Option Address
  pub percentage_cell : Option Address

pub record ActionsStruct : Type 0 where
  pub enable_taint : Bool
  pub enable_evict : Bool
  pub node_taint_threshold : Option Address

pub record SpecStruct (L : Library) : Type 0 where
  pub selector : L.LabelSelector
  pub spy_config : SpyConfig
  pub thresholds : Thresholds
  pub eval_config : EvalConfig
  pub actions : ActionsStruct

-- A slice is nil or its array.
pub record StatusStruct : Type 0 where
  pub conditions : Option Address

pub record PolicyStruct (L : Library) : Type 0 where
  pub type_meta : L.TypeMeta
  pub object_meta : L.ObjectMeta
  pub spec : SpecStruct L
  pub status : StatusStruct

pub record ListStruct (L : Library) : Type 0 where
  pub type_meta : L.TypeMeta
  pub list_meta : L.ListMeta
  pub items : Option Address

-- The cells by kind, and the first address that is free.
pub record Memory (L : Library) : Type 0 where
  pub next : Address
  pub numbers : Map Address ℤ
  pub taint_thresholds : Map Address TaintThresholdCell
  pub condition_arrays : Map Address (List L.Condition)
  pub policy_arrays : Map Address (List (PolicyStruct L))
