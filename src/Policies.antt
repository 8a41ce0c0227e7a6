-- ===== src/Policies.antt =====
-- src/exactly_once/policies.py: what to do when a claim finds its key in flight.
mod Defs
pub mod Resolve
pub mod Aresolve
unfoldable pub use Defs.*
