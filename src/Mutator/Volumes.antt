-- ===== src/Mutator/Volumes.antt =====
-- The volumes of an injected pod: what its containers mount, and the names of its volumes.
use compute_sentry.Prelude.{
  append_assoc, ◌+◌, Bool, true, false, Option, none, some, String, List, [], ◌∷◌, ◌++◌, map, ◌≡◌,
  refl, ◌∙◌, arith, All, All-append, All-map, tally, exists, ◌==◌, string_eq, ◌||◌,
}
use compute_sentry.Api.{GovernanceConfig}
use compute_sentry.Objects.{Container, Volume, Pod}
use compute_sentry.Mutator.{
  spy_mounts, inject_container, uds_volume, lib_volume, bin_volume, precheck, inject_spec, annotate,
  annotate_config, inject, precheck_envs, injected_annotation,
}

abbrev pub has_name : String → Volume → Bool
has_name name volume = volume.name == name

-- Each mount of the container names one of the volumes.
abbrev pub IsMounted : List Volume → Container → Type 0
IsMounted volumes container =
    All (λ mount. exists (has_name mount.name) volumes ≡ true) container.volume_mounts

-- Each mount of the pod's containers, init containers too, names one of the pod's volumes.
abbrev pub IsClosed : Pod → Type 0
IsClosed pod =
    All (IsMounted pod.spec.volumes) pod.spec.containers
    × All (IsMounted pod.spec.volumes) pod.spec.init_containers

-- No two volumes have one name.
abbrev pub HasNamesOnce : List Volume → Type 0
HasNamesOnce [] = Unit
HasNamesOnce (v ∷ vs) = (exists (has_name v.name) vs ≡ false) × HasNamesOnce vs

abbrev pub injected_volumes : List Volume
injected_volumes = uds_volume ∷ lib_volume ∷ bin_volume ∷ []

module _ {A : Type 0} (p : A → Bool) where
  exists-append : (xs ys : List A) → exists p (xs ++ ys) ≡ (exists p xs || exists p ys)
  unfolding exists
  exists-append [] ys = refl
  exists-append (x ∷ xs) ys = ground (arith, exists-append xs ys)

  pub tally-append : (xs ys : List A) → tally p (xs ++ ys) ≡ tally p xs + tally p ys
  unfolding tally
  tally-append [] ys = omega arith
  tally-append (x ∷ xs) ys = ground (arith, tally-append xs ys)

  pub tally_of_absent : (xs : List A) → exists p xs ≡ false → tally p xs ≡ 0
  unfolding tally exists
  tally_of_absent [] h = refl
  tally_of_absent (x ∷ xs) h = ground (arith, tally_of_absent xs)

All-map_list :
    {A B : Type 0} (f : A → B) (P : B → Type 0) (xs : List A)
    → All (λ x. P (f x)) xs
    → All P (map f xs)
All-map_list f P [] h = tt
All-map_list f P (x ∷ xs) h = (h.0, All-map_list f P xs h.1)

exists_in_injected :
    (name : String) (vs ws : List Volume)
    → exists (has_name name) ws ≡ true
    → exists (has_name name) (vs ++ ws) ≡ true
exists_in_injected name vs ws h = ground (arith, exists-append (has_name name) vs ws)

IsMounted-append : (vs ws : List Volume) (c : Container) → IsMounted vs c → IsMounted (vs ++ ws) c
IsMounted-append vs ws c h =
    All-map _ _ c.volume_mounts (λ m there. ground (arith, exists-append (has_name m.name) vs ws)) h

inject_container-IsMounted :
    (vs : List Volume) (c : Container)
    → IsMounted vs c
    → IsMounted (vs ++ injected_volumes) (inject_container c)
unfolding inject_container exists
inject_container-IsMounted vs c h =
    All-append _ c.volume_mounts spy_mounts (IsMounted-append vs injected_volumes c h) (
      exists_in_injected "compute-sentry-uds" vs injected_volumes refl,
      (exists_in_injected "compute-sentry-lib" vs injected_volumes refl, tt),
    )

module _ (marshal : GovernanceConfig → Option String) (config : Option GovernanceConfig) where
  spec-annotate_config :
      (o : Option GovernanceConfig) (pod : Pod) → (annotate_config marshal o pod).spec ≡ pod.spec
  unfolding annotate_config annotate
  spec-annotate_config none pod = refl
  spec-annotate_config (some c) pod = ground arith

  spec-inject : (pod : Pod) → (inject marshal config pod).spec ≡ (inject_spec config pod).spec
  unfolding inject annotate
  spec-inject pod =
      spec-annotate_config config (annotate injected_annotation "true" (inject_spec config pod))

  pub volumes-inject :
      (pod : Pod) → (inject marshal config pod).spec.volumes ≡ pod.spec.volumes ++ injected_volumes
  unfolding inject_spec
  volumes-inject pod = rw (spec-inject pod) (
      append_assoc (pod.spec.volumes ++ uds_volume ∷ []) (lib_volume ∷ []) (bin_volume ∷ [])
      ∙ append_assoc pod.spec.volumes (uds_volume ∷ []) (lib_volume ∷ bin_volume ∷ []))

  -- If each mount of a pod's containers names one of its volumes, each mount of the injected pod's
  -- does, those of the spy's and the precheck's files too.
  pub inject-IsClosed : (pod : Pod) → IsClosed pod → IsClosed (inject marshal config pod)
  unfolding inject_spec precheck exists
  inject-IsClosed pod h =
      rw (volumes-inject pod, spec-inject pod)
        (
          All-map_list inject_container _ pod.spec.containers
              (All-map _ _ pod.spec.containers (inject_container-IsMounted pod.spec.volumes) h.0),
          All-append _ pod.spec.init_containers (precheck (precheck_envs config) ∷ [])
              (All-map _ _ pod.spec.init_containers
                (IsMounted-append pod.spec.volumes injected_volumes) h.1)
              (
                (
                  exists_in_injected "compute-sentry-bin" pod.spec.volumes injected_volumes refl,
                  tt,
                ),
                tt,
              ),
        )
