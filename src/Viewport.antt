-- ===== src/Viewport.antt =====
-- internal/tui/viewport: the shared viewport arithmetic of the terminal panes.
pub mod Window
pub mod Budget
