-- ===== src/Top/World.antt =====
-- The state of the top layer: its tables, as internal/models describes their rows; what is outside the
-- repository; and actions on that state, as those of the zones.
mod Types
mod Action
pub use Types.*
unfoldable pub use Action.*
