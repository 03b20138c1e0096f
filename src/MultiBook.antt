-- ===== src/MultiBook.antt =====
-- `MultiBookSimulator`: cpp/include/lobsim/multibook_simulator.hpp and book_id.hpp. Several books, the
-- streams that feed them, merged by time, and the events of a strategy among them.
pub mod Merge
pub mod State
pub mod Stream
pub mod Step
pub mod Api
pub mod Order
pub mod Valid
pub mod Changes
pub mod Filled
pub mod Steps
pub mod Ready
pub mod Primed
pub mod Keeps
pub mod Until
pub mod Calls
pub mod Moves
pub mod Bounded
pub mod Reachable
pub mod Time
pub mod Isolation
mod Tests
