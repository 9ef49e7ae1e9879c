-- ===== src/Mutator/Env.antt =====
-- The environment that an injected container starts with.
use compute_sentry.Prelude.{
  ◌≤◌, Bool, true, false, Option, none, some, String, List, [], ◌∷◌, ◌++◌, ◌≡◌, refl, sym, arith,
  Bool-cases, Option-cases, inl, inr, tally, exists, maybe, ◌==◌, ==_iff, string_eq, if◌then◌else◌,
}
use Prim.Native.String.{◌++◌ as ◌+++◌}
use compute_sentry.Objects.{EnvVar, Container}
use compute_sentry.Mutator.{
  ld_preload, spy_library, literal, is_named, preload_first, inject_preload, spy_envs,
  inject_container,
}

-- Kubernetes gives a variable that a container names twice its last value.
abbrev pub effective : String → List EnvVar → Option EnvVar
effective name [] = none
effective name (env ∷ envs) =
    maybe (effective name envs) (if is_named name env then some env else none) some

-- The container's own LD_PRELOAD behind the spy library, or the spy library alone.
abbrev pub preloaded : Option EnvVar → EnvVar
preloaded none = literal ld_preload spy_library
preloaded (some env) = record env {
  value = "/opt/compute-sentry/lib/libcompute-sentry-spy.so:" +++ env.value;
}

maybe_self : (o : Option EnvVar) → maybe o none some ≡ o
maybe_self none = refl
maybe_self (some env) = refl

effective-append :
    (name : String) (xs ys : List EnvVar)
    → effective name (xs ++ ys) ≡ maybe (effective name ys) (effective name xs) some
effective-append name [] ys = elim (Option-cases (effective name ys)) [
  | inl h ↦ rw h refl
  | inr (env, h) ↦ rw h refl
]
effective-append name (x ∷ xs) ys =
    rw (effective-append name xs ys)
      (elim (Option-cases (effective name ys)) [ inl h ↦ rw h refl | inr (env, h) ↦ rw h refl ])

tally-exists : (p : EnvVar → Bool) (xs : List EnvVar) → exists p xs ≡ false → tally p xs ≡ 0
unfolding tally exists
tally-exists p [] h = refl
tally-exists p (x ∷ xs) h = ground (arith, tally-exists p xs)

effective-absent :
    (name : String) (xs : List EnvVar) → tally (is_named name) xs ≡ 0 → effective name xs ≡ none
unfolding tally
effective-absent name [] h = refl
effective-absent name (x ∷ xs) h = ground (arith, effective-absent name xs)

renamed :
    (env : EnvVar) (name : String)
    → is_named ld_preload env ≡ true
    → is_named name env ≡ (ld_preload == name)
renamed env name h = rw ((==_iff env.name ld_preload).0 h) refl

-- Under other names the environment is as it was.
preload_first-other :
    (name : String) (xs : List EnvVar)
    → (ld_preload == name) ≡ false
    → effective name (preload_first xs) ≡ effective name xs
unfolding preload_first
preload_first-other name [] h = refl
preload_first-other name (x ∷ xs) h = elim (Bool-cases (is_named ld_preload x)) [
  | inl e ↦ rw (e, renamed x name e, h) refl
  | inr e ↦ rw (e, preload_first-other name xs h) refl
]

preload_first-effective :
    (xs : List EnvVar)
    → tally (is_named ld_preload) xs ≤ 1
    → exists (is_named ld_preload) xs ≡ true
    → effective ld_preload (preload_first xs) ≡ some (preloaded (effective ld_preload xs))
unfolding preload_first tally exists
preload_first-effective [] once there = cc
preload_first-effective (x ∷ xs) once there = elim (Bool-cases (is_named ld_preload x)) [
  | inl e ↦ let absent = effective-absent ld_preload xs (ground arith) in rw (e, absent, e) refl
  | inr e ↦
      rw
        (
          e,
          preload_first-effective xs (ground arith) (ground arith),
          maybe_self (effective ld_preload xs),
        )
        refl
]

inject_preload-other :
    (name : String) (xs : List EnvVar)
    → (ld_preload == name) ≡ false
    → effective name (inject_preload xs) ≡ effective name xs
unfolding inject_preload
inject_preload-other name xs h = elim (Bool-cases (exists (is_named ld_preload) xs)) [
  | inl e ↦ rw e (preload_first-other name xs h)
  | inr e ↦ rw (e, effective-append name xs (literal ld_preload spy_library ∷ []), h) refl
]

inject_preload-effective :
    (xs : List EnvVar)
    → tally (is_named ld_preload) xs ≤ 1
    → effective ld_preload (inject_preload xs) ≡ some (preloaded (effective ld_preload xs))
unfolding inject_preload
inject_preload-effective xs once = elim (Bool-cases (exists (is_named ld_preload) xs)) [
  | inl e ↦ rw e (preload_first-effective xs once e)
  | inr e ↦
      let absent = effective-absent ld_preload xs (tally-exists (is_named ld_preload) xs e) in
      rw (e, effective-append ld_preload xs (literal ld_preload spy_library ∷ []), absent) refl
]

inject_preload_lem :
    (name : String) (xs : List EnvVar)
    → tally (is_named ld_preload) xs ≤ 1
    → effective name (inject_preload xs) ≡ (
        if ld_preload == name
        then some (preloaded (effective ld_preload xs))
        else effective name xs)
inject_preload_lem name xs once = elim (Bool-cases (ld_preload == name)) [
  | inl e ↦ rw (sym ((==_iff ld_preload name).0 e)) (inject_preload-effective xs once)
  | inr e ↦ rw (e, inject_preload-other name xs e) refl
]

pub effective-inject_container :
    (container : Container) (name : String)
    → tally (is_named ld_preload) container.env ≤ 1
    → effective name (inject_container container).env
      ≡ maybe
          (effective name spy_envs)
          (if ld_preload == name
            then some (preloaded (effective ld_preload container.env))
            else effective name container.env)
          some
unfolding inject_container
effective-inject_container container name once =
    rw
      (
        effective-append name (inject_preload container.env) spy_envs,
        inject_preload_lem name container.env once,
      )
      refl
