-- ===== src/Risk.antt =====
-- internal/usecase/risk: the checks before an order.
mod Manager
pub mod Checks
unfoldable pub use Manager.*
