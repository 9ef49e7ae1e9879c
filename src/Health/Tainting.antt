-- ===== src/Health/Tainting.antt =====
-- `taintNode` of the health controller: what it leaves on the server.
use mathlib.Core.Path.{subst}
use compute_sentry.Prelude.{
  true, false, not, List, [], ◌∷◌, ◌++◌, ◌≡◌, ◌≢◌, refl, arith, select, if◌then◌else◌, Bool-cases,
  inl, inr, sym, ◌∙◌, ◌==◌, ==_iff,
}
use compute_sentry.Prelude.Text.{Text, text_eq}
use compute_sentry.Objects.{Node, Taint}
use compute_sentry.Health.Server.{Server, MergePatch, Result, ok, err, pure, write, written}
use compute_sentry.Health.Keeps.{read_bind}
use compute_sentry.Health.Untaint.{exists-append_new, select-append_new, append_new-ne}
use compute_sentry.Health.{is_ours, no_schedule_taint, is_tainted, add_taint, taint_node}

written_inv : {W : Type 0} (r : Result W) (w : W) {w' : W} → written r w ≡ (ok tt, w') → r ≡ ok w'
unfolding written
written_inv (ok v) w h = cc
written_inv (err e) w h = cc

-- The other taints of a node.
abbrev pub others : Node → List Taint
others n = select (λ taint. not (is_ours taint)) n.taints

module _ (s : Server) (laws : MergePatch s) (name : Text) (n : Node) (named : n.name ≡ name) where
  -- The node on the server carries the taint, its other taints are those of n, and tainting it once
  -- more changes nothing.
  pub record IsTaintedNow (w : s.World) : Type 0 where
    pub node : Node
    pub there : s.get_node name w ≡ ok node
    pub ours : is_tainted node ≡ true
    pub kept : others node ≡ others n
    pub again : taint_node s name w ≡ (ok tt, w)

  pub add_taint_again :
      (m : Node) (w : s.World)
      → s.get_node name w ≡ ok m
      → is_tainted m ≡ true
      → name ≢ []
      → taint_node s name w ≡ (ok tt, w)
  unfolding taint_node add_taint
  add_taint_again m w there ours nonempty =
      let guarded : (name == []) ≡ false = ground (arith, ==_iff name []) in
      rw (guarded, read_bind (s.get_node name) _ w there, ours) (unfold pure in refl)

  abbrev with_ours : Node
  with_ours = record n { taints = n.taints ++ no_schedule_taint ∷ [] }

  -- What the call comes to, once the name and the node are known.
  taint_node_there :
      (w : s.World)
      → (name == []) ≡ false
      → s.get_node name w ≡ ok n
      → taint_node s name w ≡ (if is_tainted n then pure tt else write (s.patch_node with_ours n)) w
  unfolding taint_node add_taint
  taint_node_there w guarded there = rw (guarded, read_bind (s.get_node name) _ w there)

  patched-IsTaintedNow :
      (w w' : s.World)
      → name ≢ []
      → s.get_node name w ≡ ok n
      → s.patch_node with_ours n w ≡ ok w'
      → IsTaintedNow w'
  unfolding is_tainted
  patched-IsTaintedNow w w' nonempty there success = record {
    node = with_ours;
    there = patched;
    ours = marked;
    kept = select-append_new is_ours n.taints no_schedule_taint refl;
    again = add_taint_again with_ours w' patched marked nonempty;
  }
    where
      marked : is_tainted with_ours ≡ true
      marked = exists-append_new is_ours n.taints no_schedule_taint refl

      patched : s.get_node name w' ≡ ok with_ours
      patched =
          subst (λ k. s.get_node k w' ≡ ok with_ours) named
            (laws.replaced n n with_ours.taints w w' (append_new-ne n.taints no_schedule_taint)
              (subst (λ k. s.get_node k w ≡ ok n) (sym named) there) success)

  -- A call of `taintNode` that succeeds on a node leaves it tainted on the server, with its other
  -- taints as they were; a second call changes nothing.
  pub taint_node-IsTaintedNow :
      (w w' : s.World)
      → name ≢ []
      → s.get_node name w ≡ ok n
      → taint_node s name w ≡ (ok tt, w')
      → IsTaintedNow w'
  unfolding pure write
  taint_node-IsTaintedNow w w' nonempty there success =
      let guarded : (name == []) ≡ false = ground (arith, ==_iff name []) in
      let known = sym (taint_node_there w guarded there) ∙ success in
      elim (Bool-cases (is_tainted n)) [
        | inl ours ↦
            let same : w ≡ w' = cc (known, ours) in
            subst IsTaintedNow same (record {
              node = n;
              there = there;
              ours = ours;
              kept = refl;
              again = add_taint_again n w there ours nonempty;
            })
        | inr clean ↦
            patched-IsTaintedNow w w' nonempty there
              (written_inv (s.patch_node with_ours n w) w (cc (known, clean)))
      ]
