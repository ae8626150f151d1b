-- ===== src/Materializer/GoGit.antt =====
-- `goGitBackend` of pkg/materializer/gogit.go.
pub mod Library
pub mod Export
pub mod Submodules
pub mod Run
pub mod Safe
pub mod Chown
pub mod Calls
pub mod Counts
pub mod Total
pub mod Numbers
