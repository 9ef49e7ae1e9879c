-- ===== src/Evaluator.antt =====
-- agent/collector/evaluator.go: the state, the handling of an event, the periodic sweep, the loops.
mod State
mod Process
mod Sweep
mod Loop
pub mod Marking
pub mod Entries
pub mod Clients
pub mod Recovery
pub mod History
pub mod Alternation
pub mod Reports
pub mod Violations
pub mod Silence
pub mod Windows
pub mod Sections
pub mod Unset
pub mod Invariant
unfoldable pub use State.*
unfoldable pub use Process.*
unfoldable pub use Sweep.*
unfoldable pub use Loop.*
