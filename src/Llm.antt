-- ===== src/Llm.antt =====
-- src/llm: the conversation agent.
pub mod Engine
pub mod Args
pub mod Template
pub mod Specs
pub mod Slots
pub mod Proxy
