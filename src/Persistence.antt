-- ===== src/Persistence.antt =====
-- internal/infra/persistence: the tables of positions and trades, the statements that the trading
-- code runs on them, and `WithTransaction`. Each statement reads one entry of the list `faults`,
-- which says whether the database fails it; an empty list means no more failures. A failed
-- statement changes no table. Rows of equal `created_at` or `executed_at`, whose order SQL leaves
-- open, keep the order of insertion.
pub mod Atomic
mod Statements
unfoldable pub use Statements.*
