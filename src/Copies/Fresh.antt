-- ===== src/Copies/Fresh.antt =====
-- The arrays of a deep copy are its own.
use mathlib.Core.Path.{subst}
use compute_sentry.Prelude.{
  suc, ◌≤◌, Option, none, some, List, [], ◌∷◌, ◌≡◌, ◌⊎◌, ◌∙◌, All, arith, Option-cases, inl, inr,
}
use compute_sentry.Prelude.Map
use compute_sentry.Copies.Structs.{Library, Address, address_eq, PolicyStruct, ListStruct, Memory}
use compute_sentry.Copies.{
  conditions_at, policies_at, copy_conditions, copy_status_into, copy_policy_into, copy_each,
  copy_items, copy_list_into,
}
use compute_sentry.Copies.Views.{IsOldPolicy, AllBelow, IsOldList}
use compute_sentry.Copies.Extension.{
  Extends, lookup-insert_same, copy_policy-Extends, copy_each-Extends, conditions_kept_at,
}
use compute_sentry.Copies.Elements.{olds-grow, copied_status-IsBelow, conditions_at-arrays}

-- A slice whose array was not made before an address was free.
abbrev pub IsFrom : Address → Option Address → Type 0
IsFrom next none = Unit
IsFrom next (some a) = next ≤ a

module _ (L : Library) where
  -- A policy whose conditions, if it has any, are in an array made since.
  abbrev pub IsOwnPolicy : Address → Memory L → PolicyStruct L → Type 0
  IsOwnPolicy next m p =
      (conditions_at L p.status.conditions m ≡ none) ⊎ IsFrom next p.status.conditions

  -- A list whose items, if it has any, are in an array made since, as are the conditions of each.
  abbrev pub IsOwnList : Address → Memory L → ListStruct L → Type 0
  IsOwnList next m l =
      (policies_at L l.items m ≡ none)
      ⊎ (IsFrom next l.items
          × (ps : List (PolicyStruct L)) × (policies_at L l.items m ≡ some ps)
          × All (IsOwnPolicy next m) ps)

  copied_policy-IsOwnPolicy :
      (p : PolicyStruct L) (m : Memory L)
      → IsOwnPolicy m.next (copy_policy_into L p m).1 (copy_policy_into L p m).0
  unfolding copy_policy_into copy_status_into copy_conditions
  copied_policy-IsOwnPolicy p m = elim (Option-cases (conditions_at L p.status.conditions m)) [
    | inl e ↦ rw e (inl e)
    | inr (cs, e) ↦ rw e (inr (omega arith))
  ]

  kept-IsOwnPolicy :
      (next : Address) (m m' : Memory L) (p : PolicyStruct L)
      → Extends L m m'
      → IsOldPolicy m.next p
      → IsOwnPolicy next m p
      → IsOwnPolicy next m' p
  kept-IsOwnPolicy next m m' p h old (inl e) =
      inl (conditions_kept_at L m m' p.status.conditions h old ∙ e)
  kept-IsOwnPolicy next m m' p h old (inr own) = inr own

  IsFrom-later : {n n' : Address} → n ≤ n' → (a : Option Address) → IsFrom n' a → IsFrom n a
  IsFrom-later le none h = tt
  IsFrom-later le (some a) h = omega (arith, le, h)

  items_later :
      {n n' : Address} (m : Memory L) (ps : List (PolicyStruct L))
      → n ≤ n'
      → All (IsOwnPolicy n' m) ps
      → All (IsOwnPolicy n m) ps
  items_later m [] le h = tt
  items_later m (p ∷ ps) le (inl e, h) = (inl e, items_later m ps le h)
  items_later m (p ∷ ps) le (inr own, h) =
      (inr (IsFrom-later le p.status.conditions own), items_later m ps le h)

  copied_each-All :
      (ps : List (PolicyStruct L)) (m : Memory L)
      → All (IsOldPolicy m.next) ps
      → All (IsOwnPolicy m.next (copy_each L ps m).1) (copy_each L ps m).0
  unfolding copy_each
  copied_each-All [] m h = tt
  copied_each-All (p ∷ ps) m h =
      let m' = (copy_policy_into L p m).1 in
      let step = copy_policy-Extends L p m in
      (
        kept-IsOwnPolicy m.next m' (copy_each L ps m').1 (copy_policy_into L p m).0
            (copy_each-Extends L ps m')
            (unfold copy_policy_into in copied_status-IsBelow L p.status m h.0)
            (copied_policy-IsOwnPolicy p m),
        items_later (copy_each L ps m').1 (copy_each L ps m').0 step.grows
            (copied_each-All ps m' (olds-grow step.grows ps h.1)),
      )

  IsOwnPolicy-arrays :
      (n : Address) (m : Memory L) (arrays : Map.Map Address (List (PolicyStruct L)))
      (p : PolicyStruct L)
      → IsOwnPolicy n m p
      → IsOwnPolicy n (record m { policy_arrays = arrays }) p
  IsOwnPolicy-arrays n m arrays p (inl e) =
      inl (conditions_at-arrays L p.status.conditions m arrays ∙ e)
  IsOwnPolicy-arrays n m arrays p (inr own) = inr own

  items_in_arrays :
      (n : Address) (m : Memory L) (arrays : Map.Map Address (List (PolicyStruct L)))
      (ps : List (PolicyStruct L))
      → All (IsOwnPolicy n m) ps
      → All (IsOwnPolicy n (record m { policy_arrays = arrays })) ps
  items_in_arrays n m arrays [] h = tt
  items_in_arrays n m arrays (p ∷ ps) h =
      (IsOwnPolicy-arrays n m arrays p h.0, items_in_arrays n m arrays ps h.1)

  copied_items :
      (ps : List (PolicyStruct L)) (m : Memory L)
      → All (IsOldPolicy m.next) ps
      → (ps' : List (PolicyStruct L)) × (policies_at L
            (some (copy_items L ps m).0)
            (copy_items L ps m).1
          ≡ some ps')
        × All (IsOwnPolicy m.next (copy_items L ps m).1) ps'
  unfolding copy_items policies_at
  copied_items ps m h =
      let reserved : Memory L = record m { next = suc m.next } in
      let (ps', m') = copy_each L ps reserved in
      (
        ps',
        lookup-insert_same m.next ps' m'.policy_arrays,
        items_in_arrays m.next m' (Map.insert m.next ps' m'.policy_arrays) ps' (
            items_later m' ps' (omega arith)
              (copied_each-All ps reserved (olds-grow (omega arith) ps h))),
      )

  pub copied_list-IsOwnList :
      (l : ListStruct L) (m : Memory L)
      → IsOldList L m l
      → IsOwnList m.next (copy_list_into L l m).1 (copy_list_into L l m).0
  unfolding copy_list_into
  copied_list-IsOwnList l m old = elim (Option-cases (policies_at L l.items m)) [
    | inl e ↦ rw e (inl e)
    | inr (ps, e) ↦
        let items = copied_items ps m (subst (AllBelow m.next) e old.1) in
        rw e (inr (omega arith, items.0, items.1, items.2))
  ]
