-- ===== src/Mutator.antt =====
-- The pod webhook: `Handle` of operator/internal/webhook/v1/pod_mutator.go. Policy has the choice of
-- the policy and of the injection, Containers and Inject the changes of the pod.
mod Policy
mod Containers
mod Inject
unfoldable pub use Policy.*
unfoldable pub use Containers.*
unfoldable pub use Inject.*
pub mod Priority
pub mod Env
pub mod Volumes
pub mod Reinvocation
pub mod Governance
pub mod Admission
