-- ===== src/Integrations.antt =====
-- src/exactly_once/integrations: thin wrappers that choose a key and guard a call with `once`.
pub mod Langgraph
pub mod Crewai
pub mod Replay
