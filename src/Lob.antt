-- ===== src/Lob.antt =====
-- src/lob: the historical books, the views of the engines, and the orders that engines simulate.
pub mod HistoricalLob
pub mod HistoricalLobStore
pub mod EngineView
pub mod Historical
pub mod FillSimulator
pub mod SimulatedLob
mod Tests
