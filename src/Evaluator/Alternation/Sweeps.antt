-- ===== src/Evaluator/Alternation/Sweeps.antt =====
-- The calls of a sweep follow what the cluster was told.
use mathlib.Core.Path.{subst}
use compute_sentry.Prelude.{
  Bool, true, false, List, [], ◌∷◌, ◌≡◌, ◌≢◌, ◌∙◌, refl, sym, arith, exists, ◌==◌, ==_iff,
  Bool-cases, inl, inr, if_ind, none,
}
use compute_sentry.Prelude.Int.{ℤ}
use compute_sentry.Prelude.Text.{Text, text_eq, split_slash, join_slash, join_slash_of_split}
use compute_sentry.Prelude.Map
use compute_sentry.Prelude.Map.{Map, lookup-erase, HasKeysOnce}
use compute_sentry.Evaluator.{
  HealthEvaluator, flag_of, mark_pod_status, keep_or_recover, sweep_violations, forget,
  forget_stale, sweep_stale, recover_parts, recover_pods, cleaned, check_recovery_and_cleanup,
}
use compute_sentry.Evaluator.Entries.{is_listed, is_listed-recovered}
use compute_sentry.Evaluator.Invariant.{IsWellFormed}
use compute_sentry.Evaluator.Recovery.{listed-IsCalm}
use compute_sentry.Evaluator.Alternation.{
  told, is_due, all_due, AreOthers, IsKnown, Follows, Follows-append, others-Follows, told_others,
}

-- Each key is listed once.
abbrev AreOnce : List Text → Type 0
AreOnce [] = Unit
AreOnce (key ∷ keys) = (is_listed key keys ≡ false) × AreOnce keys

unlisted_later :
    (e : HealthEvaluator) (now : ℤ) (key : Text) (m : Map Text (List ℤ))
    → Map.lookup key m ≡ none
    → HasKeysOnce m
    → is_listed key (sweep_violations e now m).1 ≡ false
unlisted_later e now key m absent once =
    ground (arith, is_listed-recovered e now key m once, absent)

recovered-AreOnce :
    (e : HealthEvaluator) (now : ℤ) (m : Map Text (List ℤ))
    → HasKeysOnce m
    → AreOnce (sweep_violations e now m).1
unfolding sweep_violations
recovered-AreOnce e now [] h = tt
recovered-AreOnce e now ((key, times) ∷ m) h =
    let rest = recovered-AreOnce e now m h.1 in
    if_ind AreOnce ((keep_or_recover e key now times).1) {x = key ∷ (sweep_violations e now m).1}
      {y = (sweep_violations e now m).1} (unlisted_later e now key m h.0 h.1, rest) rest

module _ (key : Text) where
  -- Flags are only taken away.
  flag-erase :
      (j : Text) (m : Map Text Bool) → flag_of key (Map.erase j m) ≡ true → flag_of key m ≡ true
  unfolding flag_of
  flag-erase j m h = ground (arith, lookup-erase j key m)

  not-flag-erase : (m : Map Text Bool) → flag_of key (Map.erase key m) ≡ false
  unfolding flag_of
  not-flag-erase m = ground (arith, lookup-erase key key m, ==_iff key key)

  flag-sweep_stale :
      (now : ℤ) (entries : Map Text ℤ) (e : HealthEvaluator)
      → flag_of key (sweep_stale now entries e).unhealthy_pods ≡ true
      → flag_of key e.unhealthy_pods ≡ true
  unfolding sweep_stale forget_stale forget
  flag-sweep_stale now [] e h = h
  flag-sweep_stale now ((j, last_seen) ∷ entries) e h = ground (
    arith,
    flag-sweep_stale now entries (forget_stale now j last_seen e),
    flag-erase j e.unhealthy_pods,
    h,
  )

  -- The pod's own round: one "healthy" call, and the flag is gone; or neither.
  own_call :
      (e : HealthEvaluator) (namespace name : Text)
      → join_slash namespace name ≡ key
      → all_due key true (mark_pod_status e name namespace "healthy") ≡ true
  unfolding mark_pod_status all_due is_due
  own_call e namespace name h = ground arith

  no_call-Follows : (e : HealthEvaluator) → Follows key true (e, [])
  unfolding all_due told
  no_call-Follows e = record { due = refl; known = λ flagged. refl }

  own_parts-Follows :
      (e : HealthEvaluator) (parts : List Text)
      → split_slash key ≡ parts
      → Follows key true (recover_parts e key parts)
  unfolding recover_parts
  own_parts-Follows e (namespace ∷ name ∷ []) h = record {
    due = own_call e namespace name (join_slash_of_split key namespace name h);
    known = λ flagged. ground (arith, not-flag-erase e.unhealthy_pods, flagged);
  }
  own_parts-Follows e _ h = no_call-Follows e

  -- The round of another pod.
  other_call :
      (e : HealthEvaluator) (j namespace name : Text)
      → j ≢ key
      → join_slash namespace name ≡ j
      → AreOthers key (mark_pod_status e name namespace "healthy")
  unfolding mark_pod_status
  other_call e j namespace name ne h = ground arith

  other_parts :
      (e : HealthEvaluator) (j : Text) (parts : List Text)
      → j ≢ key
      → split_slash j ≡ parts
      → AreOthers key (recover_parts e j parts).1
        × (flag_of key (recover_parts e j parts).0.unhealthy_pods ≡ true
            → flag_of key e.unhealthy_pods ≡ true)
  unfolding recover_parts
  other_parts e j (namespace ∷ name ∷ []) ne h = (
    other_call e j namespace name ne (join_slash_of_split j namespace name h),
    flag-erase j e.unhealthy_pods,
  )
  other_parts e j _ ne h = (tt, λ flagged. flagged)

  unlisted_own :
      (j : Text) (keys : List Text)
      → j ≡ key
      → is_listed j keys ≡ false
      → is_listed key keys ≡ true
      → ⊥
  unlisted_own j keys own once later = cc (own, once, later)

  -- One round, and what it leaves to the others.
  first_round :
      (e : HealthEvaluator) (j : Text) (keys : List Text) (b : Bool)
      → AreOnce (j ∷ keys)
      → (is_listed key (j ∷ keys) ≡ true → b ≡ true)
      → IsKnown key e b
      → let round = recover_parts e j (split_slash j) in
        Follows key b round × (is_listed key keys ≡ true → told key b round.1 ≡ true)
  unfolding exists
  first_round e j keys b once listed known = elim (Bool-cases (j == key)) [
    | inl same ↦
        let own : j ≡ key = (==_iff j key).0 same in
        let reported : b ≡ true = listed (ground (arith, same)) in
        let own_round : Follows key true (recover_parts e j (split_slash j)) =
          subst (λ k. Follows key true (recover_parts e k (split_slash k))) (sym own)
            (own_parts-Follows e (split_slash key) refl) in
        (
          subst (λ c. Follows key c (recover_parts e j (split_slash j))) (sym reported) own_round,
          λ later. absurd (unlisted_own j keys own once.0 later),
        )
    | inr other ↦
        let round = recover_parts e j (split_slash j) in
        let apart : j ≢ key = λ h. ground (arith, ==_iff j key, h, other) in
        let (others, kept) = other_parts e j (split_slash j) apart refl in
        (
          others-Follows e round.0 round.1 others known kept,
          λ later. told_others key b round.1 others ∙ listed (ground (arith, later, other)),
        )
  ]

  -- The third loop, over keys that are listed once, and only where the cluster counts the pod as unhealthy.
  recover_pods-Follows :
      (keys : List Text) (e : HealthEvaluator) (b : Bool)
      → AreOnce keys
      → (is_listed key keys ≡ true → b ≡ true)
      → IsKnown key e b
      → Follows key b (recover_pods e keys)
  unfolding recover_pods
  recover_pods-Follows [] e b once listed known = record {
    due = unfold all_due in refl;
    known = unfold told in known;
  }
  recover_pods-Follows (j ∷ keys) e b once listed known =
      let round = recover_parts e j (split_slash j) in
      let first = first_round e j keys b once listed known in
      Follows-append first.0
        (recover_pods-Follows keys round.0 (told key b round.1) once.1 first.1 first.0.known)

  pub check_recovery_and_cleanup-Follows :
      (e : HealthEvaluator) (now : ℤ) (b : Bool)
      → IsWellFormed e
      → IsKnown key e b
      → Follows key b (check_recovery_and_cleanup e now)
  unfolding check_recovery_and_cleanup cleaned
  check_recovery_and_cleanup-Follows e now b w known =
      recover_pods-Follows (sweep_violations e now e.violation_times).1 (cleaned e now) b
        (recovered-AreOnce e now e.violation_times w.violations)
        (λ listed. known (listed-IsCalm e now key w listed).flagged)
        (λ flagged. known (flag-sweep_stale now e.last_seen_times _ flagged))
