-- ===== src/Materializer.antt =====
-- pkg/materializer: fetching a repository and laying out its content.
pub mod Ref
pub mod Path
pub mod Limits
pub mod Copy
pub mod Action
pub mod Backend
pub mod Argv
pub mod GitCommand
pub mod Git
pub mod GoGit
