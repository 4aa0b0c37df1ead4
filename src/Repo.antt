-- ===== src/Repo.antt =====
-- internal/domain/repository: the values by which a change is described.
pub mod Path
pub mod Mode
pub mod Hunk
pub mod Digest
pub mod Snapshot
pub mod Symlink
pub mod Content
pub mod TextBytes
pub mod TextLines
pub mod Rename
