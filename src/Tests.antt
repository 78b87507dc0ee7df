-- ===== src/Tests.antt =====
-- The theorems at concrete inputs, and runs of the models: `float64` at whole numbers.
mod Markets
mod Scalps
mod Ticks
mod Data
mod Sells
mod Signals
mod Replays
mod Placing
mod Watching
