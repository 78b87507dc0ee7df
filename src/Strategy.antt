-- ===== src/Strategy.antt =====
-- pkg/strategy: signals, market data, and the interface of a strategy.
mod Types
unfoldable pub use Types.*
