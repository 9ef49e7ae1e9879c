-- ===== src/Tests/Cluster.antt =====
-- A cluster with one node and the pods on it, and its API server.
use compute_sentry.Prelude.{
  Bool, true, false, not, ◌&&◌, Option, List, [], ◌∷◌, ◌≡◌, ◌≢◌, ◌∙◌, refl, arith, ap, sym, ◌==◌,
  ==_iff, string_eq, select, if◌then◌else◌, Bool-cases, inl, inr,
}
use compute_sentry.Prelude.Text.{Text, text_eq}
use compute_sentry.Api.{ComputeSentryPolicy}
use compute_sentry.Objects.{Pod, Node, Taint}
use compute_sentry.Health.Server.{
  Server, MergePatch, NodeNames, Eviction, Result, ok, err, not_found,
}

pub record Cluster : Type 0 where
  pub node : Node
  pub pods : List Pod
  pub policies : List (ComputeSentryPolicy (Option Bool))

abbrev pub taints_beq : List Taint → List Taint → Bool
taints_beq [] [] = true
taints_beq [] (u ∷ us) = false
taints_beq (t ∷ ts) [] = false
taints_beq (t ∷ ts) (u ∷ us) =
    t.key == u.key && t.value == u.value && t.effect == u.effect && taints_beq ts us

taint_eq : (t u : Taint) → t.key ≡ u.key → t.value ≡ u.value → t.effect ≡ u.effect → t ≡ u
taint_eq t u h k l = cc

taints_beq-eq : (ts us : List Taint) → taints_beq ts us ≡ true → ts ≡ us
taints_beq-eq [] [] h = refl
taints_beq-eq [] (u ∷ us) h = cc
taints_beq-eq (t ∷ ts) [] h = cc
taints_beq-eq (t ∷ ts) (u ∷ us) h = ground (
  arith,
  ==_iff t.key u.key,
  ==_iff t.value u.value,
  ==_iff t.effect u.effect,
  taints_beq-eq ts us,
)

taints_beq_refl : (ts : List Taint) → taints_beq ts ts ≡ true
taints_beq_refl [] = refl
taints_beq_refl (t ∷ ts) =
    rw
      (
        (==_iff t.key t.key).1 refl,
        (==_iff t.value t.value).1 refl,
        (==_iff t.effect t.effect).1 refl,
      )
      (taints_beq_refl ts)

abbrev pub get_node_of : Text → Cluster → Result Node
get_node_of name w = if name == w.node.name then ok w.node else err not_found

abbrev pub patch_node_of : Node → Node → Cluster → Result Cluster
patch_node_of object base w =
    if not (base.name == w.node.name)
    then err not_found
    else if taints_beq base.taints object.taints
    then ok w
    else ok (record w { node = record w.node { taints = object.taints } })

abbrev pub get_pod_of : List Pod → Text → Text → Result Pod
get_pod_of [] namespace name = err not_found
get_pod_of (pod ∷ pods) namespace name =
    if pod.namespace == namespace && pod.name == name
    then ok pod
    else get_pod_of pods namespace name

abbrev pub evict_of : Text → Text → Cluster → Result Cluster
evict_of namespace name w = ok (record w {
  pods = select (λ pod. not (pod.namespace == namespace && pod.name == name)) w.pods;
})

-- The selector is its own answer.
abbrev pub one_node : Server
one_node = record {
  World = Cluster;
  Selector = Option Bool;
  matches = λ selector labels. selector;
  get_pod = λ namespace name w. get_pod_of w.pods namespace name;
  get_node = get_node_of;
  list_policies = λ w. ok w.policies;
  list_pods_on = λ name w. ok (select (λ pod. pod.spec.node_name == name) w.pods);
  list_pods_by = λ selector w. ok w.pods;
  patch_node = patch_node_of;
  evict = evict_of;
  delete_pod = evict_of;
}

-- The cluster that a call has left.
abbrev world_or : Cluster → Result Cluster → Cluster
world_or w (ok w') = w'
world_or w (err e) = w

patch_node_of-eq :
    (object base : Node) (w : Cluster)
    → (base.name == w.node.name) ≡ true
    → patch_node_of object base w ≡ (
        if taints_beq base.taints object.taints
        then ok w
        else ok (record w { node = record w.node { taints = object.taints } }))
patch_node_of-eq object base w h = rw h refl

get_node_of-eq :
    (name : Text) (w : Cluster) → (name == w.node.name) ≡ true → get_node_of name w ≡ ok w.node
get_node_of-eq name w h = rw h refl

named_of_patch :
    (object base : Node) (w w' : Cluster)
    → patch_node_of object base w ≡ ok w'
    → (base.name == w.node.name) ≡ true
named_of_patch object base w w' h = elim (Bool-cases (base.name == w.node.name)) [
  | inl e ↦ e
  | inr e ↦ cc
]

replaced_in :
    (base n : Node) (taints : List Taint) (w w' : Cluster)
    → base.taints ≢ taints
    → get_node_of base.name w ≡ ok n
    → patch_node_of (record base { taints = taints }) base w ≡ ok w'
    → get_node_of base.name w' ≡ ok (record n { taints = taints })
replaced_in base n taints w w' h k l =
    let named = named_of_patch (record base { taints = taints }) base w w' l in
    elim (Bool-cases (taints_beq base.taints taints)) [
      | inl e ↦ absurd (h (taints_beq-eq base.taints taints e))
      | inr e ↦ ground arith
    ]

kept_in :
    (base : Node) (taints : List Taint) (w w' : Cluster)
    → base.taints ≡ taints
    → patch_node_of (record base { taints = taints }) base w ≡ ok w'
    → get_node_of base.name w' ≡ get_node_of base.name w
kept_in base taints w w' h k =
    let named = named_of_patch (record base { taints = taints }) base w w' k in
    let same : taints_beq base.taints taints ≡ true = rw (sym h) (taints_beq_refl base.taints) in
    ground arith

pods_in :
    (object base : Node) (w w' : Cluster) → patch_node_of object base w ≡ ok w' → w'.pods ≡ w.pods
pods_in object base w w' h = elim (Bool-cases (taints_beq base.taints object.taints)) [
  | inl e ↦ ground (arith, named_of_patch object base w w' h)
  | inr e ↦ ground (arith, named_of_patch object base w w' h)
]

pub one_node-MergePatch : MergePatch one_node
one_node-MergePatch = record {
  replaced = replaced_in;
  kept = kept_in;
  pods_kept = λ object base w w' name h.
      ap (λ pods. ok (select (λ pod. pod.spec.node_name == name) pods))
        (pods_in object base w w' h);
}

pub one_node-Eviction : Eviction one_node
one_node-Eviction = record {
  evicted = λ namespace name node w w' h. ap (λ r. get_node_of node (world_or w r)) (sym h);
  deleted = λ namespace name node w w' h. ap (λ r. get_node_of node (world_or w r)) (sym h);
}

named_in : (name : Text) (n : Node) (w : Cluster) → get_node_of name w ≡ ok n → n.name ≡ name
named_in name n w h = ground (arith, ==_iff name w.node.name)

node_name_in :
    (object base : Node) (w w' : Cluster)
    → patch_node_of object base w ≡ ok w'
    → w'.node.name ≡ w.node.name
node_name_in object base w w' h = elim (Bool-cases (taints_beq base.taints object.taints)) [
  | inl e ↦ ground (arith, named_of_patch object base w w' h)
  | inr e ↦ ground (arith, named_of_patch object base w w' h)
]

elsewhere : (name : Text) (w : Cluster) → w.node.name ≢ name → get_node_of name w ≡ err not_found
elsewhere name w h = ground (arith, ==_iff name w.node.name)

others_kept_in :
    (object base : Node) (name : Text) (w w' : Cluster)
    → base.name ≢ name
    → patch_node_of object base w ≡ ok w'
    → get_node_of name w' ≡ get_node_of name w
others_kept_in object base name w w' h k =
    let here : base.name ≡ w.node.name =
      (==_iff base.name w.node.name).0 (named_of_patch object base w w' k) in
    let away : w.node.name ≢ name = λ e. h (here ∙ e) in
    elsewhere name w' (λ e. away (sym (node_name_in object base w w' k) ∙ e))
    ∙ sym (elsewhere name w away)

pub one_node-NodeNames : NodeNames one_node
one_node-NodeNames = record { named = named_in; others_kept = others_kept_in }
