-- ===== src/NodePlugin.antt =====
-- cmd/nodeplugin: the CSI node service.
pub mod TargetPath
pub mod Errors
pub mod Pipeline
pub mod Metrics
pub mod Start
pub mod Assembly
pub mod Server
pub mod Service
pub mod Publish
pub mod Http
