-- ===== src/Health.antt =====
-- operator/internal/controller/health_controller.go: what the health controller does about a pod.
pub mod Server
mod Status
mod Taints
mod Reconcile
pub mod Decision
pub mod Throttle
pub mod Percentage
pub mod Thresholds
pub mod Keeps
pub mod Nodes
pub mod Rounds
pub mod Untaint
pub mod Lasting
pub mod Tainting
pub mod Evictions
pub mod Remediation
pub mod Evicting
unfoldable pub use Status.*
unfoldable pub use Taints.*
unfoldable pub use Reconcile.*
