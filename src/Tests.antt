-- ===== src/Tests.antt =====
-- Concrete inputs, and runs of the definitions on them.
mod Inputs
mod Sequences
mod Stores
mod Chains
mod Interleavings
mod Keys
mod Durably
mod Demos
