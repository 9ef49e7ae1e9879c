-- ===== src/Health/Lasting.antt =====
-- A node that carries the controller's taint, through all reconciliations.
use compute_sentry.Prelude.{
  ◌≡◌, ◌≢◌, ◌∙◌, sym, refl, Bool, true, false, arith, ◌==◌, ==_iff, Bool-cases, inl, inr, [],
}
use compute_sentry.Prelude.Text.{Text, text_eq}
use compute_sentry.Objects.{Node, Pod}
use compute_sentry.Health.Server.{
  Server, MergePatch, Eviction, NodeNames, Result, ok, err, empty_node_name, not_found, Action,
  fail, read, write, ◌>>=◌, attempt, unless_error,
}
use compute_sentry.Health.Keeps.{
  Keeps, Keeps-pure, Keeps-fail, Keeps-if, Keeps-attempt, Keeps-read, Keeps-write,
}
use compute_sentry.Health.Nodes.{evict_if-Untouched}
use compute_sentry.Health.Rounds.{reconcile_pod-Keeps}
use compute_sentry.Health.Untaint.{reconcile_pod-Stays}
use compute_sentry.Health.{
  is_tainted, add_taint, taint_node, untaint_node, reconcile_pod, reconcile_read, reconcile, done,
}

apart_of : (a b : Text) → (a == b) ≡ false → a ≢ b
apart_of a b h e = ground (arith, ==_iff a b, e)

module _ (s : Server) (names : NodeNames s) (name : Text) (n : Node) where
  abbrev IsThere : s.World → Type 0
  IsThere w = s.get_node name w ≡ ok n

  -- Actions on a node of another name.
  module _ (other : Text) (apart : other ≢ name) where
    after_read :
        {A : Type 0} (f : Node → Action s.World A) (w : s.World) (r : Result Node)
        → s.get_node other w ≡ r
        → ((node : Node) → node.name ≢ name → Keeps IsThere (f node))
        → IsThere w
        → IsThere (unless_error f r w).1
    unfolding unless_error fail
    after_read f w (ok node) got keeps h =
        (keeps node (λ e. apart (sym (names.named other node w got) ∙ e))).at w h
    after_read f w (err e) got keeps h = h

    read_other-Keeps :
        {A : Type 0} (f : Node → Action s.World A)
        → ((node : Node) → node.name ≢ name → Keeps IsThere (f node))
        → Keeps IsThere (read (s.get_node other) >>= f)
    unfolding ◌>>=◌ attempt read
    read_other-Keeps f keeps = record {
      at = λ w h. after_read f w (s.get_node other w) refl keeps h;
    }

    patch-Keeps :
        (object base : Node) → base.name ≢ name → Keeps IsThere (write (s.patch_node object base))
    patch-Keeps object base ne =
        Keeps-write (s.patch_node object base)
          λ w w' h e. names.others_kept object base name w w' ne e ∙ h

    taint_other-Keeps : Keeps IsThere (taint_node s other)
    unfolding taint_node add_taint
    taint_other-Keeps =
        Keeps-if (other == []) (fail empty_node_name) _ (λ _. Keeps-fail empty_node_name)
          (λ _. read_other-Keeps _ (λ node ne.
            Keeps-if (is_tainted node) _ _ (λ _. Keeps-pure tt) (λ _. patch-Keeps _ node ne)))

    untaint_other-Keeps : Keeps IsThere (untaint_node s other)
    unfolding untaint_node
    untaint_other-Keeps = read_other-Keeps _ (λ node ne.
        Keeps-if (is_tainted node) _ _ (λ _. patch-Keeps node _ ne) (λ _. Keeps-pure tt))

module _ (s : Server) (laws : MergePatch s) (names : NodeNames s) (evicts : Eviction s)
    (clientset : Bool) (name : Text) (n : Node) (named : n.name ≡ name)
    (ours : is_tainted n ≡ true) where
  any_pod-Keeps : (pod : Pod) → Keeps (IsThere s names name n) (reconcile_pod s clientset pod)
  any_pod-Keeps pod = elim (Bool-cases (pod.spec.node_name == name)) [
    | inl same ↦
        reconcile_pod-Stays s laws evicts clientset name n named ours pod
          ((==_iff pod.spec.node_name name).0 same)
    | inr other ↦
        reconcile_pod-Keeps s clientset (IsThere s names name n) pod.spec.node_name
          (taint_other-Keeps s names name n pod.spec.node_name
            (apart_of pod.spec.node_name name other))
          (untaint_other-Keeps s names name n pod.spec.node_name
            (apart_of pod.spec.node_name name other))
          (evict_if-Untouched s evicts clientset name n) pod refl
  ]

  read_pod-Keeps : (r : Result Pod) → Keeps (IsThere s names name n) (reconcile_read s clientset r)
  unfolding reconcile_read
  read_pod-Keeps (ok pod) = any_pod-Keeps pod
  read_pod-Keeps (err not_found) = Keeps-pure done
  read_pod-Keeps (err e) = Keeps-fail e

  reconcile-Keeps :
      (namespace pod_name : Text)
      → Keeps (IsThere s names name n) (reconcile s clientset namespace pod_name)
  unfolding reconcile
  reconcile-Keeps namespace pod_name =
      Keeps-attempt (read (s.get_pod namespace pod_name)) _ (Keeps-read _) read_pod-Keeps

  -- What may happen to the cluster: calls of Reconcile for any pods, and changes by others that leave the
  -- node as it is.
  pub data Rounds : s.World → s.World → Type 0 where
    ends : (w : s.World) → Rounds w w
    reconciles :
        (namespace pod_name : Text) (w w' : s.World)
        → Rounds (reconcile s clientset namespace pod_name w).1 w'
        → Rounds w w'
    changes :
        (w changed w' : s.World)
        → s.get_node name changed ≡ s.get_node name w
        → Rounds changed w'
        → Rounds w w'

  -- The controller never takes its taint off: a node that carries it is on the server as it was after any
  -- number of reconciliations of any pods, whatever the policies, the pods and the answers of the server
  -- are, and whatever others do between them, as long as they leave the node alone.
  pub Rounds-last :
      (w w' : s.World) → Rounds w w' → s.get_node name w ≡ ok n → s.get_node name w' ≡ ok n
  Rounds-last a b (ends w) h = h
  Rounds-last a b (reconciles namespace pod_name w w' rest) h =
      Rounds-last (reconcile s clientset namespace pod_name w).1 w' rest
        ((reconcile-Keeps namespace pod_name).at w h)
  Rounds-last a b (changes w changed w' same rest) h = Rounds-last changed w' rest (same ∙ h)
