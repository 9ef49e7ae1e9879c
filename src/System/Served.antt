-- ===== src/System/Served.antt =====
-- The pods on the API server, after the evaluator's calls.
use compute_sentry.Prelude.{
  true, false, ◌&&◌, some, String, List, [], ◌∷◌, ◌++◌, map, All, ◌≡◌, refl, ap, ◌∙◌, sym, arith,
  maybe, ◌==◌, string_eq, ==_iff, if_ind, if◌then◌else◌,
}
use compute_sentry.Prelude.Text.{text_eq}
use compute_sentry.Prelude.Map
use compute_sentry.Prelude.Map.{lookup-insert}
use compute_sentry.Objects.{Pod, annotation}
use compute_sentry.Evaluator.{PatchCall, health_annotation}
use compute_sentry.Health.{health_annotation_key, is_unhealthy}

-- What the API server makes of a merge patch of the annotation: the pod of that name gets it.
unfoldable pub patched : PatchCall → Pod → Pod
patched call pod =
    if pod.name == call.name && pod.namespace == call.namespace
    then record pod {
      annotations =
          some (Map.insert health_annotation call.status (maybe pod.annotations [] (λ m. m)));
    }
    else pod

-- The pods on the server after the calls, in their order.
unfoldable pub served : List PatchCall → List Pod → List Pod
unfolding patched
served [] pods = pods
served (call ∷ calls) pods = served calls (map (patched call) pods)

-- The operator reads the status that the agent wrote.
is_unhealthy-annotated :
    (status : String) (pod : Pod)
    → is_unhealthy (record pod {
      annotations = some (Map.insert health_annotation status (maybe pod.annotations [] (λ m. m)));
    })
      ≡ (status == "unhealthy")
unfolding is_unhealthy annotation
is_unhealthy-annotated status pod =
    rw
      (lookup-insert health_annotation health_annotation_key status
        (maybe pod.annotations [] (λ m. m)))
      refl

pub is_unhealthy-patched :
    (call : PatchCall) (pod : Pod)
    → pod.name ≡ call.name
    → pod.namespace ≡ call.namespace
    → is_unhealthy (patched call pod) ≡ (call.status == "unhealthy")
unfolding patched
is_unhealthy-patched call pod named placed =
    let addressed : (pod.name == call.name && pod.namespace == call.namespace) ≡ true =
      ground
        (arith, ==_iff pod.name call.name, ==_iff pod.namespace call.namespace, named, placed) in
    rw addressed (is_unhealthy-annotated call.status pod)

-- One pod on the server after the calls.
unfoldable pub served_pod : List PatchCall → Pod → Pod
unfolding patched
served_pod [] pod = pod
served_pod (call ∷ calls) pod = served_pod calls (patched call pod)

map-map {ℓ} :
    {A B C : Type ℓ} (f : A → B) (g : B → C) (xs : List A)
    → map g (map f xs) ≡ map (λ x. g (f x)) xs
map-map f g [] = refl
map-map f g (x ∷ xs) = rw (map-map f g xs) refl

map-id {ℓ} : {A : Type ℓ} (xs : List A) → map (λ x. x) xs ≡ xs
map-id [] = refl
map-id (x ∷ xs) = rw (map-id xs) refl

-- The calls reach each pod by itself.
pub served-map :
    (calls : List PatchCall) (pods : List Pod) → served calls pods ≡ map (served_pod calls) pods
unfolding served served_pod
served-map [] pods = sym (map-id pods)
served-map (call ∷ calls) pods =
    served-map calls (map (patched call) pods) ∙ map-map (patched call) (served_pod calls) pods

pub served_pod-append :
    (before later : List PatchCall) (pod : Pod)
    → served_pod (before ++ later) pod ≡ served_pod later (served_pod before pod)
unfolding served_pod
served_pod-append [] later pod = refl
served_pod-append (call ∷ before) later pod = served_pod-append before later (patched call pod)

-- A call leaves the pod's names.
patched_names :
    (call : PatchCall) (pod : Pod)
    → ((patched call pod).name ≡ pod.name) × ((patched call pod).namespace ≡ pod.namespace)
unfolding patched
patched_names call pod = ground arith

pub served_names :
    (calls : List PatchCall) (pod : Pod)
    → ((served_pod calls pod).name ≡ pod.name) × ((served_pod calls pod).namespace ≡ pod.namespace)
unfolding served_pod
served_names [] pod = (refl, refl)
served_names (call ∷ calls) pod =
    let rest = served_names calls (patched call pod) in
    let names = patched_names call pod in (rest.0 ∙ names.0, rest.1 ∙ names.1)

-- A call with another status than "unhealthy" marks no pod unhealthy.
patched_healthy :
    (call : PatchCall) (pod : Pod)
    → call.status ≡ "healthy"
    → is_unhealthy pod ≡ false
    → is_unhealthy (patched call pod) ≡ false
unfolding patched
patched_healthy call pod status h =
    if_ind (λ (p : Pod). is_unhealthy p ≡ false)
      (pod.name == call.name && pod.namespace == call.namespace)
      (is_unhealthy-annotated call.status pod ∙ ap (λ (s : String). s == "unhealthy") status) h

pub served_healthy :
    (calls : List PatchCall) (pod : Pod)
    → All (λ call. call.status ≡ "healthy") calls
    → is_unhealthy pod ≡ false
    → is_unhealthy (served_pod calls pod) ≡ false
unfolding served_pod
served_healthy [] pod statuses h = h
served_healthy (call ∷ calls) pod statuses h =
    served_healthy calls (patched call pod) statuses.1 (patched_healthy call pod statuses.0 h)
