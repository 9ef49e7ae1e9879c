-- ===== src/Health/Untaint.antt =====
-- What the controller's patches do to a node.
use mathlib.Core.Path.{subst}
use compute_sentry.Prelude.{
  ◌≤◌, ◌<◌, Bool, true, not, List, [], ◌∷◌, ◌++◌, ◌≡◌, ◌≢◌, ap, arith, length, exists, select,
  length-append, sym, ◌==◌,
}
use compute_sentry.Prelude.Text.{Text, text_eq}
use compute_sentry.Objects.{Node, Pod}
use compute_sentry.Health.Server.{
  Server, MergePatch, ok, empty_node_name, Eviction, pure, fail, read, write, attempt,
}
use compute_sentry.Health.Keeps.{Keeps, Keeps-pure, Keeps-fail, Keeps-if, Keeps-write, read_bind}
use compute_sentry.Health.Nodes.{evict_if-Untouched}
use compute_sentry.Health.Rounds.{reconcile_pod-Keeps}
use compute_sentry.Health.{
  is_ours, is_tainted, add_taint, taint_node, untaint_node, reconcile_pod, reconcile_read,
  reconcile,
}

module _ {A : Type 0} (p : A → Bool) where
  length-select-le : (xs : List A) → length (select (λ x. not (p x)) xs) ≤ length xs
  unfolding select
  length-select-le [] = omega arith
  length-select-le (x ∷ xs) = ground (arith, length-select-le xs)

  length-select-lt :
      (xs : List A) → exists p xs ≡ true → length (select (λ x. not (p x)) xs) < length xs
  unfolding select exists
  length-select-lt [] h = cc
  length-select-lt (x ∷ xs) h = ground (arith, length-select-lt xs, length-select-le xs)

  pub exists-append_new : (xs : List A) (x : A) → p x ≡ true → exists p (xs ++ x ∷ []) ≡ true
  unfolding exists
  exists-append_new [] x h = ground arith
  exists-append_new (y ∷ xs) x h = ground (arith, exists-append_new xs x h)

  pub select-append_new :
      (xs : List A) (x : A)
      → p x ≡ true
      → select (λ x. not (p x)) (xs ++ x ∷ []) ≡ select (λ x. not (p x)) xs
  unfolding select
  select-append_new [] x h = ground arith
  select-append_new (y ∷ xs) x h = ground (arith, select-append_new xs x h)

pub append_new-ne {ℓ} : {A : Type ℓ} (xs : List A) (x : A) → xs ≢ xs ++ x ∷ []
append_new-ne xs x h = omega (arith, ap length h, length-append xs (x ∷ []))

select-ne :
    (n : Node) → is_tainted n ≡ true → select (λ taint. not (is_ours taint)) n.taints ≢ n.taints
unfolding is_tainted
select-ne n h e = omega (arith, ap length e, length-select-lt is_ours n.taints h)

module _ (s : Server) (laws : MergePatch s) (clientset : Bool) (name : Text) (n : Node)
    (named : n.name ≡ name) where
  abbrev IsThere : s.World → Type 0
  IsThere w = s.get_node name w ≡ ok n

  abbrev without : Node
  without = record n { taints = select (λ taint. not (is_ours taint)) n.taints }

  patch_back-Keeps : is_tainted n ≡ true → Keeps IsThere (write (s.patch_node n without))
  patch_back-Keeps ours = Keeps-write (s.patch_node n without) λ w w' h e.
      subst (λ k. s.get_node k w' ≡ ok n) named
        (laws.replaced without n n.taints w w' (select-ne n ours)
          (subst (λ k. s.get_node k w ≡ ok n) (sym named) h) e)

  -- Whatever `untaintNode` answers, the node stays on the server as it was: its merge patch leads
  -- from the node without the taint to the node with it.
  pub untaint_node-Keeps : Keeps IsThere (untaint_node s name)
  unfolding untaint_node
  untaint_node-Keeps = record {
    at = λ w h.
        rw (read_bind (s.get_node name) _ w h)
          ((Keeps-if (is_tainted n) _ _ patch_back-Keeps (λ _. Keeps-pure tt)).at w h);
  }

  module _ (ours : is_tainted n ≡ true) where
    add_taint-Keeps : Keeps IsThere (add_taint s name)
    unfolding add_taint
    add_taint-Keeps = record {
      at = λ w h. rw (read_bind (s.get_node name) _ w h, ours) (unfold pure in h);
    }

    taint_node-Keeps : Keeps IsThere (taint_node s name)
    unfolding taint_node
    taint_node-Keeps =
        Keeps-if (name == []) (fail empty_node_name) _ (λ _. Keeps-fail empty_node_name)
          (λ _. add_taint-Keeps)

module _ (s : Server) (laws : MergePatch s) (evicts : Eviction s) (clientset : Bool) (name : Text)
    (n : Node) (named : n.name ≡ name) (ours : is_tainted n ≡ true) where
  pub reconcile_pod-Stays :
      (pod : Pod)
      → pod.spec.node_name ≡ name
      → Keeps (λ w. s.get_node name w ≡ ok n) (reconcile_pod s clientset pod)
  reconcile_pod-Stays pod here =
      reconcile_pod-Keeps s clientset (λ w. s.get_node name w ≡ ok n) name
        (taint_node-Keeps s laws clientset name n named ours)
        (untaint_node-Keeps s laws clientset name n named)
        (evict_if-Untouched s evicts clientset name n) pod here

  -- `Reconcile` never takes the taint off: a node that carries it is afterwards on the server as it
  -- was, whatever the policies, the other pods and the answers of the server are.
  pub reconcile-stays :
      (namespace pod_name : Text) (pod : Pod) (w : s.World)
      → s.get_pod namespace pod_name w ≡ ok pod
      → pod.spec.node_name ≡ name
      → s.get_node name w ≡ ok n
      → s.get_node name (reconcile s clientset namespace pod_name w).1 ≡ ok n
  unfolding reconcile attempt read reconcile_read
  reconcile-stays namespace pod_name pod w got here there =
      rw got ((reconcile_pod-Stays pod here).at w there)
