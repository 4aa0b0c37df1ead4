-- ===== src/Review.antt =====
-- internal/domain/review: the lifecycles of workspaces and proposals, messages, anchors and threads.
pub mod Values
pub mod States
pub mod Message
pub mod Anchor
pub mod Thread
pub mod Workspace
pub mod Intent
