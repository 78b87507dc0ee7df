-- ===== src/Engine.antt =====
-- pkg/engine/engine.go: the switch for trading, the symbols to subscribe to, and the trades of today.
mod Switch
mod Startup
pub mod Restarts
pub mod Merging
unfoldable pub use Switch.*
unfoldable pub use Startup.*
