-- ===== src/Evaluator/Reports.antt =====
-- The third loop of `checkRecoveryAndCleanup`: which pods a sweep reports.
use mathlib.Core.Path.{subst}
use compute_sentry.Prelude.{
  Bool, true, false, some, List, [], ◌∷◌, ◌++◌, ◌≡◌, refl, sym, ap, ◌∙◌, arith, exists, ==_iff,
  ◌==◌, if◌then◌else◌, Bool-cases, inl, inr, append_assoc, All, if_ind, select, ◌⊎◌,
}
use compute_sentry.Prelude.Int.{ℤ, ltb_ℤ, ◌≤ℤ◌, ◌<ℤ◌}
use compute_sentry.Prelude.Text.{
  Text, text_eq, join_slash, split_slash, HasNoSlash, split_slash-join_slash,
}
use compute_sentry.Prelude.Map
use compute_sentry.Prelude.Map.{Map}
use compute_sentry.Evaluator.{
  HealthEvaluator, PatchCall, is_unnamed, mark_pod_status, valid_times, is_quiet, keep_or_recover,
  sweep_violations, recover_parts, recover_pods, cleaned, check_recovery_and_cleanup, zero_time,
  latest_from, flag_of, times_of, recovery_cutoff, is_within, pod_window,
}
use compute_sentry.Evaluator.Clients.{has_client-sweep_stale, has_client-recover_parts}
use compute_sentry.Evaluator.Entries.{is_listed, is_listed-recovered}
use compute_sentry.Evaluator.Invariant.{IsWellFormed}
use compute_sentry.Evaluator.Recovery.{IsCalm, latest_from-le}

-- The call is among them.
pub record Includes (calls : List PatchCall) (call : PatchCall) : Type 0 where
  pub before : List PatchCall
  pub after : List PatchCall
  pub found : calls ≡ before ++ call ∷ after

-- Both sides of `IsCalm`'s condition on a time.
abbrev Old : ℤ → ℤ → Type 0
Old cutoff t = (t ≤ℤ zero_time) ⊎ (t <ℤ cutoff)

latest_from-Old :
    (cutoff acc : ℤ) (times : List ℤ)
    → Old cutoff acc
    → All (Old cutoff) times
    → Old cutoff (latest_from acc times)
unfolding latest_from
latest_from-Old cutoff acc [] h k = h
latest_from-Old cutoff acc (t ∷ times) h k =
    latest_from-Old cutoff (if ltb_ℤ acc t then t else acc) times
      (if_ind (Old cutoff) (ltb_ℤ acc t) k.0 h) k.1

select_none :
    {A : Type 0} (p : A → Bool) (xs : List A) → All (λ x. p x ≡ false) xs → select p xs ≡ []
unfolding select
select_none p [] h = refl
select_none p (x ∷ xs) h = rw (h.0, select_none p xs h.1) refl

calm_is_quiet :
    (e : HealthEvaluator) (now : ℤ) (key : Text) (times : List ℤ)
    → flag_of key e.unhealthy_pods ≡ true
    → All (Old (recovery_cutoff e key now)) times
    → is_quiet e key now times ≡ true
unfolding is_quiet
calm_is_quiet e now key times flagged old =
    let latest =
      latest_from-Old (recovery_cutoff e key now) zero_time times (inl (omega arith)) old in
    let positive = (latest_from-le zero_time times).0 in ground arith

module _ (namespace name : Text) (plain_namespace : HasNoSlash namespace)
    (plain_name : HasNoSlash name) (named : is_unnamed name ≡ false) where
  abbrev healthy : PatchCall
  healthy = record { name = name; namespace = namespace; status = "healthy" }

  own_round :
      (e : HealthEvaluator)
      → e.has_client ≡ true
      → (recover_parts e (join_slash namespace name) (split_slash (join_slash namespace name))).1
        ≡ healthy ∷ []
  unfolding recover_parts mark_pod_status
  own_round e client =
      rw (split_slash-join_slash namespace name plain_namespace plain_name, client, named) refl

  own_round_at :
      (e : HealthEvaluator) (key : Text)
      → e.has_client ≡ true
      → key ≡ join_slash namespace name
      → (recover_parts e key (split_slash key)).1 ≡ healthy ∷ []
  own_round_at e key client same = rw same (own_round e client)

  Includes-recover_pods :
      (keys : List Text) (e : HealthEvaluator)
      → e.has_client ≡ true
      → is_listed (join_slash namespace name) keys ≡ true
      → Includes (recover_pods e keys).1 healthy
  unfolding recover_pods exists
  Includes-recover_pods [] e client h = absurd (ground arith)
  Includes-recover_pods (key ∷ keys) e client h =
      let round = recover_parts e key (split_slash key) in
      elim (Bool-cases (key == join_slash namespace name)) [
        | inl same ↦ record {
          before = [];
          after = (recover_pods round.0 keys).1;
          found =
              ap (λ calls. calls ++ (recover_pods round.0 keys).1)
                (own_round_at e key client ((==_iff key (join_slash namespace name)).0 same));
        }
        | inr other ↦
            let rest =
              Includes-recover_pods keys round.0
                (has_client-recover_parts e key (split_slash key) ∙ client) (ground arith) in
            record {
              before = round.1 ++ rest.before;
              after = rest.after;
              found =
                  ap (λ calls. round.1 ++ calls) rest.found
                  ∙ sym (append_assoc round.1 rest.before (healthy ∷ rest.after));
            }
      ]

  -- A pod recovers: a sweep of a well-formed evaluator with a client reports a flagged pod as "healthy"
  -- if it finds all the pod's violations on record out of its window, and before the recovery cutoff,
  -- three windows back, or at the zero time. The pod has a name, and its names have no slash, as
  -- Kubernetes' names have none.
  pub Includes-check_recovery_and_cleanup :
      (e : HealthEvaluator) (now : ℤ) (times : List ℤ)
      → IsWellFormed e
      → e.has_client ≡ true
      → Map.lookup (join_slash namespace name) e.violation_times ≡ some times
      → IsCalm e now (join_slash namespace name)
      → Includes (check_recovery_and_cleanup e now).1 healthy
  unfolding check_recovery_and_cleanup cleaned keep_or_recover valid_times times_of
  Includes-check_recovery_and_cleanup e now times w client found calm =
      let key = join_slash namespace name in
      let on_record : times_of key e.violation_times ≡ times = rw found refl in
      let expired : valid_times e key now times ≡ [] =
        select_none (is_within now (pod_window e key)) times
          (subst (All (λ t. is_within now (pod_window e key) t ≡ false)) on_record calm.expired) in
      let quiet : is_quiet e key now times ≡ true =
        calm_is_quiet e now key times calm.flagged
          (subst (All (Old (recovery_cutoff e key now))) on_record calm.quiet) in
      Includes-recover_pods (sweep_violations e now e.violation_times).1 (cleaned e now)
        (has_client-sweep_stale now e.last_seen_times _ ∙ client)
        (ground (arith, is_listed-recovered e now key e.violation_times w.violations))
