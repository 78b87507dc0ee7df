-- ===== src/Worker.antt =====
-- internal/adapter/worker/signal_worker.go: from a signal to an order.
mod Signals
mod Resizing
pub mod Orders
pub mod Scaling
pub mod Ghosts
unfoldable pub use Signals.*
