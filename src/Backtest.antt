-- ===== src/Backtest.antt =====
-- pkg/backtest: the portfolio, the simulator, the engine and the resampling of bars.
mod Types
mod Book
mod Fills
mod Engine
pub mod Accounting
pub mod Steps
pub mod Runs
pub mod Schedule
pub mod Exits
pub mod Resampling
unfoldable pub use Types.*
unfoldable pub use Book.*
unfoldable pub use Fills.*
unfoldable pub use Engine.*
