-- ===== src/Engine.antt =====
-- `PaperTradingSimulator`: cpp/include/lobsim/paper_trading_simulator.hpp and
-- cpp/src/paper_trading_simulator.cpp, one child for each group of handlers.
pub mod State
pub mod Prices
pub mod PaperLevel
pub mod PaperTrade
pub mod PaperEdit
pub mod Cancel
pub mod Cross
pub mod Add
pub mod Init
pub mod Loaded
pub mod Query
pub mod Update
pub mod Isolation
pub mod BestPrice
pub mod Books
pub mod Stable
pub mod Covered
pub mod Matching
pub mod Uncrossed
pub mod Reachable
pub mod BestPaper
pub mod Fills
pub mod Seq
pub mod QueuedLots
pub mod Conservation
pub mod TopLevels
pub mod Tests
