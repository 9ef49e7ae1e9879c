-- ===== src/Copies/Extension.antt =====
-- What a deep copy leaves as it was.
use compute_sentry.Prelude.{
  Option-cases, inl, inr, ◌≤◌, ◌<◌, Option, none, some, List, [], ◌∷◌, ◌≡◌, refl, ◌∙◌, map, All,
  arith,
}
use compute_sentry.Prelude.Map
use compute_sentry.Prelude.Map.{lookup-insert}
use compute_sentry.Copies.Structs.{Library, Address, address_eq, StatusStruct, PolicyStruct, Memory}
use compute_sentry.Copies.{
  conditions_at, copy_conditions, copy_status_into, copy_policy_into, copy_each,
}
use compute_sentry.Copies.Views.{view_actions, view_spec, view_policy, IsBelow, IsOldPolicy}

module _ (L : Library) where
  -- What was made before is as it was, and the numbers and thresholds are the same.
  pub record Extends (m m' : Memory L) : Type 0 where
    pub grows : m.next ≤ m'.next
    pub numbers_same : m'.numbers ≡ m.numbers
    pub taint_thresholds_same : m'.taint_thresholds ≡ m.taint_thresholds
    pub conditions_kept :
        (a : Address)
        → a < m.next
        → Map.lookup a m'.condition_arrays ≡ Map.lookup a m.condition_arrays
    pub policies_kept :
        (a : Address) → a < m.next → Map.lookup a m'.policy_arrays ≡ Map.lookup a m.policy_arrays

module _ {L : Library} where
  pub Extends-refl : (m : Memory L) → Extends L m m
  Extends-refl m = record {
    grows = omega arith;
    numbers_same = refl;
    taint_thresholds_same = refl;
    conditions_kept = λ a h. refl;
    policies_kept = λ a h. refl;
  }

  pub Extends-trans : {m m' m'' : Memory L} → Extends L m m' → Extends L m' m'' → Extends L m m''
  Extends-trans {m} h k = record {
    grows = omega (arith, h.grows, k.grows);
    numbers_same = k.numbers_same ∙ h.numbers_same;
    taint_thresholds_same = k.taint_thresholds_same ∙ h.taint_thresholds_same;
    conditions_kept =
        λ a lt. k.conditions_kept a (omega (arith, lt, h.grows)) ∙ h.conditions_kept a lt;
    policies_kept = λ a lt. k.policies_kept a (omega (arith, lt, h.grows)) ∙ h.policies_kept a lt;
  }

-- A cell at another address.
pub lookup-insert_other {ℓ} :
    {V : Type ℓ} (k a : Address) (v : V) (m : Map.Map Address V)
    → a < k
    → Map.lookup a (Map.insert k v m) ≡ Map.lookup a m
lookup-insert_other k a v m h = ground (arith, lookup-insert k a v m)

pub lookup-insert_same {ℓ} :
    {V : Type ℓ} (k : Address) (v : V) (m : Map.Map Address V)
    → Map.lookup k (Map.insert k v m) ≡ some v
lookup-insert_same k v m = ground (arith, lookup-insert k k v m)

module _ (L : Library) where
  pub copy_conditions-Extends :
      (cs : List L.Condition) (m : Memory L) → Extends L m (copy_conditions L cs m).1
  unfolding copy_conditions
  copy_conditions-Extends cs m = record {
    grows = omega arith;
    numbers_same = refl;
    taint_thresholds_same = refl;
    conditions_kept =
        λ a h. lookup-insert_other m.next a (map L.copy_condition cs) m.condition_arrays h;
    policies_kept = λ a h. refl;
  }

  pub copy_status-Extends :
      (s : StatusStruct) (m : Memory L) → Extends L m (copy_status_into L s m).1
  unfolding copy_status_into
  copy_status-Extends s m = elim (Option-cases (conditions_at L s.conditions m)) [
    | inl e ↦ rw e (Extends-refl m)
    | inr (cs, e) ↦ rw e (copy_conditions-Extends cs m)
  ]

  pub copy_policy-Extends :
      (p : PolicyStruct L) (m : Memory L) → Extends L m (copy_policy_into L p m).1
  unfolding copy_policy_into
  copy_policy-Extends p m = copy_status-Extends p.status m

  pub copy_each-Extends :
      (ps : List (PolicyStruct L)) (m : Memory L) → Extends L m (copy_each L ps m).1
  unfolding copy_each
  copy_each-Extends [] m = Extends-refl m
  copy_each-Extends (p ∷ ps) m =
      Extends-trans (copy_policy-Extends p m) (copy_each-Extends ps (copy_policy_into L p m).1)

  -- What was made before reads the same.
  pub conditions_kept_at :
      (m m' : Memory L) (s : Option Address)
      → Extends L m m'
      → IsBelow m.next s
      → conditions_at L s m' ≡ conditions_at L s m
  unfolding conditions_at
  conditions_kept_at m m' none h below = refl
  conditions_kept_at m m' (some a) h below = h.conditions_kept a below

  pub view_policy-kept :
      (m m' : Memory L) (p : PolicyStruct L)
      → Extends L m m'
      → IsOldPolicy m.next p
      → view_policy L m' p ≡ view_policy L m p
  unfolding view_policy view_spec view_actions
  view_policy-kept m m' p h old =
      rw
        (conditions_kept_at m m' p.status.conditions h old, h.numbers_same, h.taint_thresholds_same)
        refl

  pub view_policies-kept :
      (m m' : Memory L) (ps : List (PolicyStruct L))
      → Extends L m m'
      → All (IsOldPolicy m.next) ps
      → map (view_policy L m') ps ≡ map (view_policy L m) ps
  view_policies-kept m m' [] h old = refl
  view_policies-kept m m' (p ∷ ps) h old =
      rw (view_policy-kept m m' p h old.0, view_policies-kept m m' ps h old.1) refl

  pub map-copy_condition : (cs : List L.Condition) → map L.copy_condition cs ≡ cs
  map-copy_condition [] = refl
  map-copy_condition (c ∷ cs) = rw (L.condition_same c, map-copy_condition cs) refl
