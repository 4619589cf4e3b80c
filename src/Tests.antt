-- ===== src/Tests.antt =====
-- Runs of the model, and an instance of each theorem that has hypotheses.
pub mod Data
mod Redact
mod Queue
mod Capture
mod Imports
mod Integrate
mod Cli
mod Approvals
mod Http
mod Background
mod Runs
mod Config
mod Accept
mod Mcp
mod Reader
