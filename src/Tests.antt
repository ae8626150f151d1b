-- ===== src/Tests.antt =====
-- Runs of the model on concrete inputs, several of them from the repository's own tests.
mod Target
mod Volume
mod Eviction
mod Access
mod Node
mod Content
mod Backends
mod GoGit
mod Publishing
mod Metadata
mod Copying
mod Assembled
mod Admitted
mod Concurrent
