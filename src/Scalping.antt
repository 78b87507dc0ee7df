-- ===== src/Scalping.antt =====
-- example/strategy/scalping, and the smaller pkg/strategy/scalping: EMA crossover strategies.
mod Averages
mod Settings
mod Deciding
mod Minimal
pub mod Configured
pub mod Filters
pub mod Days
pub mod Limits
pub mod Agreement
unfoldable pub use Averages.*
unfoldable pub use Settings.*
unfoldable pub use Deciding.*
unfoldable pub use Minimal.*
