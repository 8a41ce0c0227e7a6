-- ===== src/Core.antt =====
-- src/exactly_once/core.py: the state machine of `once`.
mod Defs
pub mod Beats
pub mod Run
pub mod Arun
pub mod Parity
pub mod Guards
pub mod Aguards
pub mod Wrapper
unfoldable pub use Defs.*
