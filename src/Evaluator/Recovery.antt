-- ===== src/Evaluator/Recovery.antt =====
-- Which pods a sweep reports as healthy again.
use compute_sentry.Prelude.{
  true, false, none, some, List, [], ◌∷◌, ◌≡◌, ◌⊎◌, refl, arith, inl, inr, All, All-append, All-map,
  exists, Option-cases, ==_iff, if◌then◌else◌, maybe, select-eq-nil, ◌∙◌, sym,
}
use compute_sentry.Prelude.Int.{ℤ, ◌≤ℤ◌, ◌<ℤ◌, ltb_ℤ}
use compute_sentry.Prelude.Text.{Text, text_eq, join_slash, split_slash, join_slash_of_split}
use compute_sentry.Prelude.Map
use compute_sentry.Prelude.Map.{Map}
use compute_sentry.Evaluator.{
  HealthEvaluator, PatchCall, zero_time, times_of, flag_of, is_within, mark_pod_status, pod_window,
  recovery_cutoff, valid_times, latest_from, is_quiet, keep_or_recover, sweep_violations,
  recover_parts, recover_pods, cleaned, check_recovery_and_cleanup,
}
use compute_sentry.Evaluator.Entries.{is_listed, is_listed-recovered}
use compute_sentry.Evaluator.Invariant.{IsWellFormed}

-- The key of the pod that a call names.
abbrev pub key_of_call : PatchCall → Text
key_of_call call = join_slash call.namespace call.name

later_bounds : (a b : ℤ) → (a ≤ℤ (if ltb_ℤ a b then b else a)) × (b ≤ℤ (if ltb_ℤ a b then b else a))
later_bounds a b = ground arith

≤ℤ_trans : (a b c : ℤ) → a ≤ℤ b → b ≤ℤ c → a ≤ℤ c
≤ℤ_trans a b c h k = omega arith

-- The time that the loop finds is no earlier than its start and any time of the list.
pub latest_from-le :
    (acc : ℤ) (times : List ℤ)
    → (acc ≤ℤ latest_from acc times) × All (λ t. t ≤ℤ latest_from acc times) times
unfolding latest_from
latest_from-le acc [] = ground arith
latest_from-le acc (t ∷ times) =
    let (start, rest) = latest_from-le (if ltb_ℤ acc t then t else acc) times in
    let (above_acc, above_t) = later_bounds acc t in
    (≤ℤ_trans acc _ _ above_acc start, (≤ℤ_trans t _ _ above_t start, rest))

module _ (e : HealthEvaluator) (now : ℤ) where
  -- What has to hold of a pod's violations for the pod to be reported as healthy.
  pub record IsCalm (key : Text) : Type 0 where
    pub flagged : flag_of key e.unhealthy_pods ≡ true
    pub expired :
        All (λ t. is_within now (pod_window e key) t ≡ false) (times_of key e.violation_times)
    pub quiet :
        All
          (λ t. (t ≤ℤ zero_time) ⊎ (t <ℤ recovery_cutoff e key now))
          (times_of key e.violation_times)

  quiet_times :
      (key : Text) (times : List ℤ)
      → is_quiet e key now times ≡ true
      → All (λ t. (t ≤ℤ zero_time) ⊎ (t <ℤ recovery_cutoff e key now)) times
  unfolding is_quiet
  quiet_times key times h =
      All-map _ _ times (λ t (le : t ≤ℤ latest_from zero_time times). ground arith)
        (latest_from-le zero_time times).1

  recovered_inv :
      (key : Text) (times : List ℤ)
      → (keep_or_recover e key now times).1 ≡ true
      → (valid_times e key now times ≡ []) × (is_quiet e key now times ≡ true)
  unfolding keep_or_recover
  recovered_inv key times h = ground arith

  pub listed-IsCalm :
      (key : Text)
      → IsWellFormed e
      → is_listed key (sweep_violations e now e.violation_times).1 ≡ true
      → IsCalm key
  unfolding times_of valid_times is_quiet
  listed-IsCalm key w h = elim (Option-cases (Map.lookup key e.violation_times)) [
    | inl missing ↦ absurd (calm_missing missing)
    | inr (times, found) ↦
        let on_record : times_of key e.violation_times ≡ times = rw (found, times_of) in
        let (empty, quiet) = recovered_inv key times (outcome times found) in
        record {
          flagged = ground (arith, quiet);
          expired = rw on_record (select-eq-nil _ times empty);
          quiet = rw on_record (quiet_times key times quiet);
        }
  ]
    where
      listed :
          maybe
            (Map.lookup key e.violation_times)
            false
            (λ times. (keep_or_recover e key now times).1)
          ≡ true
      listed = sym (is_listed-recovered e now key e.violation_times w.violations) ∙ h

      calm_missing : Map.lookup key e.violation_times ≡ none → ⊥
      calm_missing missing = ground (arith, listed)

      outcome :
          (times : List ℤ)
          → Map.lookup key e.violation_times ≡ some times
          → (keep_or_recover e key now times).1 ≡ true
      outcome times found = ground (arith, listed)

-- A call of the third loop says "healthy", and its pod is one of the keys.
abbrev pub IsRecoveryOf : List Text → PatchCall → Type 0
IsRecoveryOf keys call = (call.status ≡ "healthy") × (is_listed (key_of_call call) keys ≡ true)

mark-IsRecoveryOf :
    (e : HealthEvaluator) (key namespace name : Text) (keys : List Text)
    → join_slash namespace name ≡ key
    → All (IsRecoveryOf (key ∷ keys)) (mark_pod_status e name namespace "healthy")
unfolding mark_pod_status exists
mark-IsRecoveryOf e key namespace name keys h =
    ground (arith, ==_iff key (join_slash namespace name))

recover_parts-IsRecoveryOf :
    (e : HealthEvaluator) (key : Text) (keys : List Text) (parts : List Text)
    → split_slash key ≡ parts
    → All (IsRecoveryOf (key ∷ keys)) (recover_parts e key parts).1
unfolding recover_parts
recover_parts-IsRecoveryOf e key keys (namespace ∷ name ∷ []) h =
    mark-IsRecoveryOf e key namespace name keys (join_slash_of_split key namespace name h)
recover_parts-IsRecoveryOf e key keys _ h = tt

later_key :
    (key : Text) (keys : List Text) (call : PatchCall)
    → IsRecoveryOf keys call
    → IsRecoveryOf (key ∷ keys) call
unfolding exists
later_key key keys call h = ground arith

pub recover_pods-IsRecoveryOf :
    (keys : List Text) (e : HealthEvaluator) → All (IsRecoveryOf keys) (recover_pods e keys).1
unfolding recover_pods
recover_pods-IsRecoveryOf [] e = tt
recover_pods-IsRecoveryOf (key ∷ keys) e =
    let round = recover_parts e key (split_slash key) in
    All-append (IsRecoveryOf (key ∷ keys)) round.1 _
      (recover_parts-IsRecoveryOf e key keys (split_slash key) refl)
      (All-map _ _ (recover_pods round.0 keys).1 (later_key key keys)
        (recover_pods-IsRecoveryOf keys round.0))

-- A sweep of a well-formed evaluator reports pods only as "healthy", and only pods that are flagged,
-- whose violations on record have all left the pod's window, and lie before the recovery cutoff,
-- three windows back, or at the zero time.
pub calls-check_recovery_and_cleanup :
    (e : HealthEvaluator) (now : ℤ)
    → IsWellFormed e
    → All
        (λ call. (call.status ≡ "healthy") × IsCalm e now (key_of_call call))
        (check_recovery_and_cleanup e now).1
unfolding check_recovery_and_cleanup
calls-check_recovery_and_cleanup e now w =
    All-map _ _ _ (λ call h. (h.0, listed-IsCalm e now (key_of_call call) w h.1))
      (recover_pods-IsRecoveryOf (sweep_violations e now e.violation_times).1 (cleaned e now))
