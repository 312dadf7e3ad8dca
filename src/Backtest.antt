-- ===== src/Backtest.antt =====
-- src/backtest: from market data events to books and messages, and from gateway orders to simulated
-- orders.
pub mod MarketDataEventAdapter
pub mod IntegratedBacktestEngine
pub mod OrderExecutionBridge
mod Tests
