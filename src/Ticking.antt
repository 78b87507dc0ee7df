-- ===== src/Ticking.antt =====
-- internal/adapter/worker/strategy_worker.go: market data becomes signals on the signal channel.
mod Bars
mod Exits
mod Sending
mod Handling
pub mod Aggregation
pub mod Cooldown
pub mod Log
pub mod Passing
pub mod Protection
pub mod Silence
unfoldable pub use Bars.*
unfoldable pub use Exits.*
unfoldable pub use Sending.*
unfoldable pub use Handling.*
