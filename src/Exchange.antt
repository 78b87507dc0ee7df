-- ===== src/Exchange.antt =====
-- internal/infra/exchange/bitflyer: the retries of the exchange's client (client.go) and its market
-- specifications (market_specs.go).
mod Retry
mod Specs
pub mod Attempts
pub mod Minimums
pub mod Successes
unfoldable pub use Retry.*
unfoldable pub use Specs.*
