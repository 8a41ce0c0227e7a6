-- ===== src/Stores.antt =====
-- src/exactly_once/stores: the interface of a store, and its implementations.
mod Base
pub mod Memory
pub mod Schema
pub mod Effects
pub mod Rows
pub mod Sqlite
pub mod Postgres
pub mod Redis
pub mod Agree
unfoldable pub use Base.*
