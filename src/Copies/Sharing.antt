-- ===== src/Copies/Sharing.antt =====
-- What a deep copy of a policy shares with its original.
use compute_sentry.Prelude.{Option, none, some, List, ◌≡◌, refl}
use compute_sentry.Prelude.Map
use compute_sentry.Prelude.Map.{lookup-insert}
use compute_sentry.Copies.Structs.{
  Library, Address, address_eq, TaintThresholdCell, StatusStruct, PolicyStruct, Memory,
}
use compute_sentry.Copies.{
  conditions_at, copy_conditions, copy_status_into, copy_policy_into, copy_spec_into,
}
use compute_sentry.Copies.Views.{
  number_at, taint_threshold_at, view_actions, view_spec, view_policy, IsBelow, IsOldPolicy,
}
use compute_sentry.Copies.Extension.{
  lookup-insert_other, lookup-insert_same, copy_status-Extends, copy_conditions-Extends,
  conditions_kept_at,
}

module _ (L : Library) where
  -- A write through a slice, and through a pointer; through nil there is none.
  unfoldable pub write_conditions : Option Address → List L.Condition → Memory L → Memory L
  write_conditions none cs m = m
  write_conditions (some a) cs m = record m {
    condition_arrays = Map.insert a cs m.condition_arrays;
  }

  unfoldable pub write_taint_threshold : Option Address → TaintThresholdCell → Memory L → Memory L
  write_taint_threshold none t m = m
  write_taint_threshold (some a) t m = record m {
    taint_thresholds = Map.insert a t m.taint_thresholds;
  }

module _ (L : Library) where
  -- A write above what was made before does not reach it.
  conditions_at-write :
      (a : Option Address) (b : Address) (cs : List L.Condition) (m : Memory L)
      → IsBelow b a
      → conditions_at L a (write_conditions L (some b) cs m) ≡ conditions_at L a m
  unfolding conditions_at write_conditions
  conditions_at-write none b cs m h = refl
  conditions_at-write (some a) b cs m h = lookup-insert_other b a cs m.condition_arrays h

  -- The copied slice is a new array.
  copied_conditions_of :
      (s : StatusStruct) (m : Memory L) (old : List L.Condition)
      → conditions_at L s.conditions m ≡ some old
      → copy_status_into L s m ≡ (record { conditions = some m.next }, (copy_conditions L old m).1)
  unfolding copy_status_into copy_conditions
  copied_conditions_of s m old h = rw h refl

  own_conditions :
      (p : PolicyStruct L) (m : Memory L) (old new_conditions : List L.Condition)
      → IsOldPolicy m.next p
      → conditions_at L p.status.conditions m ≡ some old
      → view_policy L
          (write_conditions L
            (copy_status_into L p.status m).0.conditions
            new_conditions
            (copy_status_into L p.status m).1)
          p
        ≡ view_policy L m p
  unfolding view_policy view_spec view_actions copy_conditions
  own_conditions p m old new_conditions below there =
      rw
        (
          copied_conditions_of p.status m old there,
          conditions_at-write p.status.conditions m.next new_conditions (copy_conditions L old m).1
              below,
          conditions_kept_at L m (copy_conditions L old m).1 p.status.conditions
              (copy_conditions-Extends L old m) below,
        )
        (unfold write_conditions in refl)

  shared_threshold :
      (a : Address) (m : Memory L) (t : TaintThresholdCell)
      → taint_threshold_at
          (write_taint_threshold L (some a) t m).numbers
          (write_taint_threshold L (some a) t m).taint_thresholds
          (some a)
        ≡ some (record {
          min_unhealthy_pods_count = number_at m.numbers t.count_cell;
          min_unhealthy_pods_percentage = number_at m.numbers t.percentage_cell;
        })
  unfolding taint_threshold_at write_taint_threshold
  shared_threshold a m t = rw (lookup-insert_same a t m.taint_thresholds) refl

  -- The copy has its own conditions, and the original's threshold: a write through the copy's slice
  -- leaves the original as it was, and one through the copy's threshold pointer changes the original,
  -- where the original has a threshold and its conditions are in memory.
  pub copy_policy_into-shares :
      (p : PolicyStruct L) (m : Memory L) (a : Address) (old new_conditions : List L.Condition)
      (t : TaintThresholdCell)
      → IsOldPolicy m.next p
      → p.spec.actions.node_taint_threshold ≡ some a
      → conditions_at L p.status.conditions m ≡ some old
      → let (copied, m') = copy_policy_into L p m in
        (view_policy L (write_conditions L copied.status.conditions new_conditions m') p
          ≡ view_policy L m p)
        × ((view_policy L
              (write_taint_threshold L copied.spec.actions.node_taint_threshold t m')
              p).spec.actions.node_taint_threshold
            ≡ some (record {
              min_unhealthy_pods_count = number_at m.numbers t.count_cell;
              min_unhealthy_pods_percentage = number_at m.numbers t.percentage_cell;
            }))
  unfolding copy_policy_into copy_spec_into view_policy view_spec view_actions
  copy_policy_into-shares p m a old new_conditions t below pointer there =
      let h = copy_status-Extends L p.status m in
      (
        own_conditions p m old new_conditions below there,
        rw (pointer, shared_threshold a (copy_status_into L p.status m).1 t, h.numbers_same) refl,
      )
