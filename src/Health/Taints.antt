-- ===== src/Health/Taints.antt =====
-- The controller's operations on a node's taints.
use compute_sentry.Prelude.{
  Bool, String, [], ◌∷◌, ◌++◌, not, exists, select, ◌==◌, string_eq, if◌then◌else◌,
}
use compute_sentry.Prelude.Text.{Text, text_eq}
use compute_sentry.Objects.{Node, Taint}
use compute_sentry.Health.Server.{
  Server, Result, ok, err, not_found, empty_node_name, Action, pure, fail, read, write, attempt,
  ◌>>=◌,
}

abbrev pub no_schedule_taint_key : String
no_schedule_taint_key = "compute-sentry.aiguard.io/unhealthy"

abbrev pub no_schedule_taint : Taint
no_schedule_taint = record { key = no_schedule_taint_key; value = "true"; effect = "NoSchedule" }

abbrev pub is_ours : Taint → Bool
is_ours taint = taint.key == no_schedule_taint_key

-- The loops that look for the controller's taint.
unfoldable pub is_tainted : Node → Bool
is_tainted node = exists is_ours node.taints

module _ (server : Server) where
  open server use {World, get_node, patch_node}

  -- The part behind the guard: the lookup of the taint and the patch that adds it.
  unfoldable pub add_taint : Text → Action World (Unit {0})
  add_taint name = do
    node ← read (get_node name)
    if is_tainted node
        then pure tt
        else write
            (patch_node (record node { taints = node.taints ++ no_schedule_taint ∷ [] }) node)

  unfoldable pub taint_node : Text → Action World (Unit {0})
  taint_node name = if name == [] then fail empty_node_name else add_taint name

  -- The patch goes from the node without the taint to the node as it was read.
  unfoldable pub untaint_node : Text → Action World (Unit {0})
  untaint_node name = do
    node ← read (get_node name)
    let new_taints = select (λ taint. not (is_ours taint)) node.taints
    if is_tainted node
        then write (patch_node node (record node { taints = new_taints }))
        else pure tt

  unfoldable pub untaint_read : Text → Result Node → Action World (Unit {0})
  untaint_read name (ok node) = if is_tainted node then untaint_node name else pure tt
  untaint_read name (err not_found) = pure tt
  untaint_read name (err e) = fail e

  unfoldable pub untaint_node_if_tainted_by_us : Text → Action World (Unit {0})
  untaint_node_if_tainted_by_us name = attempt (read (get_node name)) (untaint_read name)
