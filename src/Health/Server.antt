-- ===== src/Health/Server.antt =====
-- What the controller uses of the API server and of the Kubernetes libraries, and the actions that
-- are made of such calls.
use compute_sentry.Prelude.{Bool, Option, String, List, ◌≡◌, ◌≢◌, ℕ}
use compute_sentry.Prelude.Text.{Text}
use compute_sentry.Prelude.Map.{Map}
use compute_sentry.Api.{ComputeSentryPolicy}
use compute_sentry.Objects.{Pod, Node, Taint}

-- The errors that the code tells apart: an answer NotFound, any other failure of a call, and the two
-- that it makes itself.
pub data Error : Type 0 where
  not_found call_failed empty_node_name : Error
  too_many_unhealthy : ℕ → ℕ → Error

pub data Result {ℓ} (A : Type ℓ) : Type ℓ where
  ok : A → Result A
  err : Error → Result A

-- A state of the cluster and the calls on it. `matches` is LabelSelectorAsSelector, `none` where it
-- fails, with Matches of the selector. `patch_node object base` sends the merge patch that leads
-- from `base` to `object`.
pub record Server : Type 1 where
  pub World : Type 0
  pub Selector : Type 0
  pub matches : Selector → Map String String → Option Bool
  pub get_pod : Text → Text → World → Result Pod
  pub get_node : Text → World → Result Node
  pub list_policies : World → Result (List (ComputeSentryPolicy Selector))
  pub list_pods_on : Text → World → Result (List Pod)
  pub list_pods_by : Selector → World → Result (List Pod)
  pub patch_node : Node → Node → World → Result World
  pub evict : Text → Text → World → Result World
  pub delete_pod : Text → Text → World → Result World

-- What a successful merge patch does: a list of taints that it changes is replaced as a whole, one
-- that it does not change is left as the server has it, and so are other nodes and all pods.
pub record MergePatch (s : Server) : Type 0 where
  pub replaced :
      (base n : Node) (taints : List Taint) (w w' : s.World)
      → base.taints ≢ taints
      → s.get_node base.name w ≡ ok n
      → s.patch_node (record base { taints = taints }) base w ≡ ok w'
      → s.get_node base.name w' ≡ ok (record n { taints = taints })
  pub kept :
      (base : Node) (taints : List Taint) (w w' : s.World)
      → base.taints ≡ taints
      → s.patch_node (record base { taints = taints }) base w ≡ ok w'
      → s.get_node base.name w' ≡ s.get_node base.name w
  pub pods_kept :
      (object base : Node) (w w' : s.World) (name : Text)
      → s.patch_node object base w ≡ ok w'
      → s.list_pods_on name w' ≡ s.list_pods_on name w

-- A node is read by its name, and a patch changes no other node.
pub record NodeNames (s : Server) : Type 0 where
  pub named : (name : Text) (n : Node) (w : s.World) → s.get_node name w ≡ ok n → n.name ≡ name
  pub others_kept :
      (object base : Node) (name : Text) (w w' : s.World)
      → base.name ≢ name
      → s.patch_node object base w ≡ ok w'
      → s.get_node name w' ≡ s.get_node name w

-- Evicting or deleting a pod changes no node.
pub record Eviction (s : Server) : Type 0 where
  pub evicted :
      (namespace name node : Text) (w w' : s.World)
      → s.evict namespace name w ≡ ok w'
      → s.get_node node w' ≡ s.get_node node w
  pub deleted :
      (namespace name node : Text) (w w' : s.World)
      → s.delete_pod namespace name w ≡ ok w'
      → s.get_node node w' ≡ s.get_node node w

-- An action ends with a value or an error, and leaves the cluster as it is then.
abbrev pub Action : Type 0 → Type 0 → Type 0
Action W A = W → Result A × W

module _ {W A : Type 0} where
  unfoldable pub pure : A → Action W A
  pure a w = (ok a, w)

  unfoldable pub fail : Error → Action W A
  fail e w = (err e, w)

  unfoldable pub read : (W → Result A) → Action W A
  read call w = (call w, w)

-- A call that changes the cluster, if it succeeds.
unfoldable pub written : {W : Type 0} → Result W → W → Result (Unit {0}) × W
written (ok w') w = (ok tt, w')
written (err e) w = (err e, w)

unfoldable pub write : {W : Type 0} → (W → Result W) → Action W (Unit {0})
unfolding written
write call w = written (call w) w

module _ {W A B : Type 0} where
  -- An action, and what is done about its result, value or error.
  unfoldable pub attempt : Action W A → (Result A → Action W B) → Action W B
  attempt m f w = let (r, w') = m w in f r w'

  -- The early return of an error.
  unfoldable pub unless_error : (A → Action W B) → Result A → Action W B
  unfolding fail
  unless_error f (ok a) = f a
  unless_error f (err e) = fail e

  infixl 5 ◌>>=◌
  unfoldable pub ◌>>=◌ : Action W A → (A → Action W B) → Action W B
  unfolding attempt unless_error
  m >>= f = attempt m (unless_error f)

infixl 5 ◌>>◌
abbrev pub ◌>>◌ : {W B : Type 0} → Action W (Unit {0}) → Action W B → Action W B
m >> k = m >>= λ _. k
