-- ===== src/World.antt =====
-- What the services stand on: the tables of internal/db and internal/az/vfw/dao, the broker, the
-- clock and the identifier generator, and the calls that can fail.
--
-- Code outside the repository is a value of `Env`. `calls` counts the calls made to it, so that
-- two calls of the clock or of the generator may answer differently. A call that fails returns
-- its error text and leaves the tables and the queues as they were.
mod Types
mod Action
pub mod Hoare
pub use Types.*
unfoldable pub use Action.*
