-- ===== src/Copies/Elements.antt =====
-- The copies of policies, one by one: each holds what its original holds.
use compute_sentry.Prelude.{
  ◌≤◌, Option, none, some, List, [], ◌∷◌, ◌≡◌, refl, ap, ◌∙◌, map, All, arith, Option-cases, inl,
  inr,
}
use compute_sentry.Prelude.Map
use compute_sentry.Copies.Structs.{Library, Address, address_eq, StatusStruct, PolicyStruct, Memory}
use compute_sentry.Copies.{
  conditions_at, copy_conditions, copy_status_into, copy_policy_into, copy_each, copy_spec_into,
}
use compute_sentry.Copies.Views.{view_actions, view_spec, view_policy, IsBelow, IsOldPolicy}
use compute_sentry.Copies.Extension.{
  lookup-insert_same, map-copy_condition, copy_status-Extends, copy_policy-Extends,
  copy_each-Extends, view_policy-kept, view_policies-kept,
}

IsBelow-grows : {n n' : Address} → n ≤ n' → (a : Option Address) → IsBelow n a → IsBelow n' a
IsBelow-grows le none h = tt
IsBelow-grows le (some a) h = omega (arith, le, h)

pub olds-grow :
    {L : Library} {n n' : Address}
    → n ≤ n'
    → (ps : List (PolicyStruct L)) → All (IsOldPolicy n) ps
    → All (IsOldPolicy n') ps
olds-grow le [] h = tt
olds-grow le (p ∷ ps) h = (IsBelow-grows le p.status.conditions h.0, olds-grow le ps h.1)

module _ (L : Library) where
  conditions_at-some :
      (a : Address) (m : Memory L) → conditions_at L (some a) m ≡ Map.lookup a m.condition_arrays
  unfolding conditions_at
  conditions_at-some a m = refl

  -- A copied status has the conditions, in an array that is its own.
  copied_conditions :
      (s : StatusStruct) (m : Memory L)
      → conditions_at L (copy_status_into L s m).0.conditions (copy_status_into L s m).1
        ≡ conditions_at L s.conditions m
  unfolding copy_status_into copy_conditions
  copied_conditions s m = elim (Option-cases (conditions_at L s.conditions m)) [
    | inl e ↦ rw e e
    | inr (cs, e) ↦ rw e (
        conditions_at-some m.next (copy_conditions L cs m).1
        ∙ lookup-insert_same m.next (map L.copy_condition cs) m.condition_arrays
        ∙ ap some (map-copy_condition L cs))
  ]

  view_policy-copy_policy_into :
      (p : PolicyStruct L) (m : Memory L)
      → view_policy L (copy_policy_into L p m).1 (copy_policy_into L p m).0 ≡ view_policy L m p
  unfolding view_policy view_spec view_actions copy_policy_into copy_spec_into
  view_policy-copy_policy_into p m =
      let h = copy_status-Extends L p.status m in
      rw
        (
          copied_conditions p.status m,
          L.object_meta_same p.object_meta,
          L.label_selector_same p.spec.selector,
          h.numbers_same,
          h.taint_thresholds_same,
        )
        refl

  pub copied_status-IsBelow :
      (s : StatusStruct) (m : Memory L)
      → IsBelow m.next s.conditions
      → IsBelow (copy_status_into L s m).1.next (copy_status_into L s m).0.conditions
  unfolding copy_status_into copy_conditions
  copied_status-IsBelow s m h = elim (Option-cases (conditions_at L s.conditions m)) [
    | inl e ↦ rw e h
    | inr (cs, e) ↦ rw e (omega arith)
  ]

  each-IsOld :
      (ps : List (PolicyStruct L)) (m : Memory L)
      → All (IsOldPolicy m.next) ps
      → All (IsOldPolicy (copy_each L ps m).1.next) (copy_each L ps m).0
  unfolding copy_each
  each-IsOld [] m h = tt
  each-IsOld (p ∷ ps) m h =
      let m' = (copy_policy_into L p m).1 in
      let step = copy_policy-Extends L p m in
      let more = copy_each-Extends L ps m' in
      (
        IsBelow-grows more.grows (copy_policy_into L p m).0.status.conditions
            (unfold copy_policy_into in copied_status-IsBelow p.status m h.0),
        each-IsOld ps m' (olds-grow step.grows ps h.1),
      )

  pub view-copy_each :
      (ps : List (PolicyStruct L)) (m : Memory L)
      → All (IsOldPolicy m.next) ps
      → map (view_policy L (copy_each L ps m).1) (copy_each L ps m).0 ≡ map (view_policy L m) ps
  unfolding copy_each
  view-copy_each [] m h = refl
  view-copy_each (p ∷ ps) m h =
      let m' = (copy_policy_into L p m).1 in
      let step = copy_policy-Extends L p m in
      let more = copy_each-Extends L ps m' in
      rw
        (
          view_policy-kept L m' (copy_each L ps m').1 (copy_policy_into L p m).0 more
              (unfold copy_policy_into in copied_status-IsBelow p.status m h.0),
          view_policy-copy_policy_into p m,
          view-copy_each ps m' (olds-grow step.grows ps h.1),
          view_policies-kept L m m' ps step h.1,
        )
        refl

  -- A policy is read without the arrays of policies.
  pub conditions_at-arrays :
      (a : Option Address) (m : Memory L) (arrays : Map.Map Address (List (PolicyStruct L)))
      → conditions_at L a (record m { policy_arrays = arrays }) ≡ conditions_at L a m
  unfolding conditions_at
  conditions_at-arrays none m arrays = refl
  conditions_at-arrays (some a) m arrays = refl
