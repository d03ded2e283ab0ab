-- ===== src/Tests.antt =====
-- Runs of the model on concrete inputs, and the theorems at such inputs.
mod Supervising
mod Agent
mod Speaking
mod Naming
mod Playing
mod Caches
mod Voice
mod Library
mod Serving
mod Watching
mod Files
mod Tube
mod Settings
mod Sayings
