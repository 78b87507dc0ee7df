-- ===== src/Report.antt =====
-- pkg/backtest/report.go: the summary of a backtest.
mod Ratios
mod Summary
mod Tallies
pub mod Figures
unfoldable pub use Ratios.*
unfoldable pub use Summary.*
