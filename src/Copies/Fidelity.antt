-- ===== src/Copies/Fidelity.antt =====
-- A deep copy holds what the original holds, and the original holds it still.
use compute_sentry.Prelude.{
  suc, Option, none, some, List, [], ◌∷◌, ◌≡◌, refl, ap, ◌∙◌, map, All, arith, Option-cases, inl,
  inr,
}
use mathlib.Core.Path.{subst}
use compute_sentry.Prelude.Map
use compute_sentry.Copies.Structs.{Library, Address, address_eq, PolicyStruct, ListStruct, Memory}
use compute_sentry.Copies.{policies_at, copy_each, copy_items, copy_list_into}
use compute_sentry.Copies.Views.{
  view_actions, view_spec, view_policy, view_items, view_list, IsBelow, IsOldPolicy, AllBelow,
  IsOldList,
}
use compute_sentry.Copies.Extension.{
  Extends, Extends-refl, lookup-insert_other, lookup-insert_same, copy_each-Extends,
  view_policies-kept,
}
use compute_sentry.Copies.Fresh.{IsOwnList, copied_list-IsOwnList}
use compute_sentry.Copies.Elements.{conditions_at-arrays}
use compute_sentry.Copies.Elements.{view-copy_each, olds-grow}

module _ (L : Library) where
  -- The memory after the items' copies, their array written.
  copy_items-Extends :
      (ps : List (PolicyStruct L)) (m : Memory L) → Extends L m (copy_items L ps m).1
  unfolding copy_items
  copy_items-Extends ps m =
      let more = copy_each-Extends L ps (record m { next = suc m.next }) in
      record {
        grows = omega (arith, more.grows);
        numbers_same = more.numbers_same;
        taint_thresholds_same = more.taint_thresholds_same;
        conditions_kept = λ a h. more.conditions_kept a (omega (arith, h));
        policies_kept = λ a h.
            lookup-insert_other m.next a (copy_each L ps (record m { next = suc m.next })).0
              (copy_each L ps (record m { next = suc m.next })).1.policy_arrays h
            ∙ more.policies_kept a (omega (arith, h));
      }

  view_policies-arrays :
      (m : Memory L) (arrays : Map.Map Address (List (PolicyStruct L))) (ps : List (PolicyStruct L))
      → map (view_policy L (record m { policy_arrays = arrays })) ps ≡ map (view_policy L m) ps
  unfolding view_policy view_spec view_actions
  view_policies-arrays m arrays [] = refl
  view_policies-arrays m arrays (p ∷ ps) =
      rw (conditions_at-arrays L p.status.conditions m arrays, view_policies-arrays m arrays ps)
        refl

  reserve-Extends : (m : Memory L) → Extends L m (record m { next = suc m.next })
  reserve-Extends m = record {
    grows = omega arith;
    numbers_same = refl;
    taint_thresholds_same = refl;
    conditions_kept = λ a h. refl;
    policies_kept = λ a h. refl;
  }

  view-copy_items :
      (ps : List (PolicyStruct L)) (m : Memory L)
      → All (IsOldPolicy m.next) ps
      → view_items L
          (copy_items L ps m).1
          (policies_at L (some (copy_items L ps m).0) (copy_items L ps m).1)
        ≡ view_items L m (some ps)
  unfolding copy_items policies_at view_items
  view-copy_items ps m h =
      let reserved : Memory L = record m { next = suc m.next } in
      let (ps', m') = copy_each L ps reserved in
      rw (lookup-insert_same m.next ps' m'.policy_arrays) (
        ap some (
          view_policies-arrays m' (Map.insert m.next ps' m'.policy_arrays) ps'
          ∙ view-copy_each L ps reserved (olds-grow (omega arith) ps h)
          ∙ view_policies-kept L m reserved ps (reserve-Extends m) h))

  copy_list-Extends : (l : ListStruct L) (m : Memory L) → Extends L m (copy_list_into L l m).1
  unfolding copy_list_into
  copy_list-Extends l m = elim (Option-cases (policies_at L l.items m)) [
    | inl e ↦ rw e (Extends-refl m)
    | inr (ps, e) ↦ rw e (copy_items-Extends ps m)
  ]

  -- The array of a slice that was made before.
  policies_at-kept :
      (m m' : Memory L) (a : Option Address)
      → Extends L m m'
      → IsBelow m.next a
      → policies_at L a m' ≡ policies_at L a m
  unfolding policies_at
  policies_at-kept m m' none h old = refl
  policies_at-kept m m' (some a) h old = h.policies_kept a old

  view_items-kept :
      (m m' : Memory L) (ps : Option (List (PolicyStruct L)))
      → Extends L m m'
      → AllBelow m.next ps
      → view_items L m' ps ≡ view_items L m ps
  unfolding view_items
  view_items-kept m m' none h old = refl
  view_items-kept m m' (some ps) h old = ap some (view_policies-kept L m m' ps h old)

  view_list-kept :
      (m m' : Memory L) (l : ListStruct L)
      → Extends L m m'
      → IsOldList L m l
      → view_list L m' l ≡ view_list L m l
  unfolding view_list
  view_list-kept m m' l h old =
      rw
        (
          policies_at-kept m m' l.items h old.0,
          view_items-kept m m' (policies_at L l.items m) h old.1,
        )
        refl

  view_list-copied :
      (l : ListStruct L) (m : Memory L)
      → IsOldList L m l
      → view_list L (copy_list_into L l m).1 (copy_list_into L l m).0 ≡ view_list L m l
  unfolding view_list copy_list_into
  view_list-copied l m old = elim (Option-cases (policies_at L l.items m)) [
    | inl e ↦ rw (e, L.list_meta_same l.list_meta) (rw e refl)
    | inr (ps, e) ↦
        rw (e, L.list_meta_same l.list_meta)
          (rw (view-copy_items ps m (subst (AllBelow m.next) (e) old.1)) refl)
  ]

  -- The deep copy of a list that was made before reads as the list did, and so does, afterwards, the
  -- list itself and any other that was made before; the copy's items, if it has any, are in an array of
  -- their own, which was not in memory before, and so are the conditions of each of them.
  pub view-copy_list_into :
      (l k : ListStruct L) (m : Memory L)
      → IsOldList L m l
      → IsOldList L m k
      → let (copied, m') = copy_list_into L l m in
        (view_list L m' copied ≡ view_list L m l)
        × (view_list L m' k ≡ view_list L m k)
        × IsOwnList L m.next m' copied
  view-copy_list_into l k m old_l old_k = (
    view_list-copied l m old_l,
    view_list-kept m (copy_list_into L l m).1 k (copy_list-Extends l m) old_k,
    copied_list-IsOwnList L l m old_l,
  )
