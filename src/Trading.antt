-- ===== src/Trading.antt =====
-- internal/usecase/trading: how the trader places an order (bitflyer_trader.go), with the checks of
-- validator/order_validator.go and the request and the result of order/order_service.go, and how
-- the order is watched (monitor/order_monitor.go). The exchange, with the rate limit and the retries
-- of its client, is the answer `post`; Trading/Calls models how the order service makes these calls.
-- Trading/Caching models the balance service
-- (balance/balance_service.go); what it returns to `PlaceOrder` is the answer `balance`. The wall
-- clock is the constant `now`.
mod Validation
mod Placement
pub mod Placed
mod Calls
pub mod Called
pub mod Sent
mod Caching
pub mod Freshness
mod Monitoring
pub mod Monitored
pub mod Refusals
unfoldable pub use Validation.*
unfoldable pub use Calls.*
unfoldable pub use Caching.*
unfoldable pub use Monitoring.*
unfoldable pub use Placement.*
