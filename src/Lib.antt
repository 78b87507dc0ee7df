-- ===== src/Lib.antt =====
-- gogocoin, a trading bot for the bitFlyer exchange: the part of it that decides on orders, the part
-- that books them, and the backtest.
--
-- The live program turns market data into signals (a strategy) and signals into orders:
-- `SignalWorker` scales a BUY to the balance, asks the risk manager, sizes a SELL by the holdings
-- and sends the order through the trader, which validates it again. When the exchange has executed
-- it, the PnL calculator matches a sell against the open positions and stores trade and positions
-- in one transaction. The backtest replays bars through a strategy, a simulator and a portfolio.
--
-- Files:
--   Float         `float64` as an interface, the IEEE 754 laws that the theorems use, and whole
--                 numbers as an instance of it (Float/Exact)
--   Domain        internal/domain: the data that the components exchange
--   Persistence   internal/infra/persistence/{position_repo,trade_repo,transaction}.go: tables as
--                 lists of rows, statements on them, `WithTransaction`
--   Pnl           internal/usecase/trading/pnl/calculator.go: `CalculateAndSave`
--   Strategy      pkg/strategy: signals, market data, and the interface of a strategy
--   Risk          internal/usecase/risk/manager.go: `CheckRiskManagement` and its checks
--   Worker        internal/adapter/worker/signal_worker.go: `processSignal` and what it calls
--   Trading       internal/usecase/trading/{bitflyer_trader.go,validator/order_validator.go,
--                 order/order_service.go}: `PlaceOrder`, and the calls of the exchange; and there
--                 monitor/order_monitor.go: `MonitorExecution`, and balance/balance_service.go: the
--                 cache of balances
--   Ticking       internal/adapter/worker/strategy_worker.go: ticks, bars, forced exits and the
--                 signals that are sent
--   Scalping      example/strategy/scalping and pkg/strategy/scalping: the averages, the filters and
--                 the limits of the EMA strategies
--   Exchange      internal/infra/exchange/bitflyer/{client,market_specs}.go: `WithRetry`, and the
--                 minimum order sizes
--   Configuration internal/config/{config,worker,runtime}.go: `Validate` and its defaults
--   Engine        pkg/engine/engine.go: the switch for trading, and what is read at the start
--   Analytics     internal/usecase/analytics/performance.go: `UpdateMetrics` and
--                 `CalculateFromTrades`
--   Backtest      pkg/backtest/{engine,simulator,portfolio,types}.go: `Run`; Backtest/Resampling is
--                 datasource_resample.go: `Next`
--   Report        pkg/backtest/report.go: `ComputeSummary`
--   Prelude       names of the library, lists, results and whole numbers
--   Tests         the theorems at concrete inputs, and runs of the models
--
-- How the code is modelled. A method that changes an object takes its state and returns the new
-- one. Errors are constructors of an error type. The repositories of the PnL calculator are a
-- store; the database may fail any statement, by a list of faults that the store carries. The risk
-- manager and the signal worker only ask their collaborators, so these are records of answers, and
-- what the worker makes others do is a list of commands. Time is a number of nanoseconds, and the
-- clock is an argument. `int` is an integer without bounds. Loops run over lists; the only fuel is
-- the number of calls that a client makes of the resampling datasource, and the number of attempts of
-- `WithRetry`, which is the bound of its loop.
--
-- `float64` is a type `F` with the operations of `Float`; nothing is assumed of it but in theorems
-- that take `IsIeee`, laws that binary64 has on finite numbers. What is stated of sums of money is
-- stated for whole numbers, where sums and products are exact.
--
-- Goroutines that overlap are modelled where requests change the switch for trading, where a call
-- waits for the cache of balances, and at the cooldown of forced exits. Elsewhere, ticks without bars
-- included, one call ends before the next begins.
--
-- Left out: logging, channels, SQL beyond the statements above, HTTP, the connection of
-- the exchange's client, the reading of configuration files, and the printing of reports. What calls
-- of those return is an argument.
pub mod Prelude
pub mod Float
pub mod Domain
pub mod Persistence
pub mod Pnl
pub mod Strategy
pub mod Risk
pub mod Worker
pub mod Trading
pub mod Analytics
pub mod Exchange
pub mod Ticking
pub mod Scalping
pub mod Backtest
pub mod Configuration
pub mod Engine
pub mod Report
pub mod Tests
