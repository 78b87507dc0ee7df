-- ===== src/Pnl.antt =====
-- internal/usecase/trading/pnl/calculator.go: realized profit and loss of an order, by first-in
-- first-out matching against the open positions, and the rows that it writes.
pub mod Fifo
pub mod Exact
pub mod Saving
pub mod Unfilled
mod Bookkeeping
unfoldable pub use Bookkeeping.*
