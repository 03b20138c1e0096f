-- ===== src/Lib.antt =====
-- The limit order book simulator lobsim, which replays a market's order events and overlays the paper
-- orders of a strategy on the book.
--
-- Parts, and the files that model them:
--   Types        the events, the records and the calls of a sink: cpp/include/lobsim/types.hpp,
--                lob_event.hpp and log_sink.hpp.
--   Pool         `NodePool` of cpp/include/lobsim/paper_trading_simulator.hpp.
--   Fenwick      `FenwickTree` of the same header.
--   Engine       `PaperTradingSimulator`, with cpp/src/paper_trading_simulator.cpp. Engine/State has the
--                members as a record; Engine/Prices the best prices; Engine/Cross the matching loops;
--                Engine/Add `on_add` and `on_aggressive_trade`; Engine/Cancel `on_delete`, `on_set`,
--                `on_subtract`, `on_match` and `on_partial_order_cancel`; Engine/PaperLevel,
--                Engine/PaperTrade and Engine/PaperEdit the paper orders; Engine/Init the snapshots and
--                `clear_state`; Engine/Query `depth_at` and `l2_top_n`; Engine/Update `update`.
--   Ledger       `InMemoryLogSink`: cpp/include/lobsim/in_memory_sink.hpp, cpp/src/in_memory_sink.cpp.
--   MultiSink    `BookScopedSink` and `InMemoryMultiLogSink` of cpp/include/lobsim/multi_log_sink.hpp.
--   Session      `ReplaySession` of cpp/include/lobsim/replay_session.hpp, over any engine.
--   MultiBook    `MultiBookSimulator`: cpp/include/lobsim/multibook_simulator.hpp and book_id.hpp.
--                MultiBook/Merge has the order of the heap, MultiBook/State the members,
--                MultiBook/Stream the streams and `fill_buffer`, MultiBook/Step `apply_to_book`, `step`,
--                `step_until`, `step_for` and `submit_strategy_event`, MultiBook/Api the other calls,
--                MultiBook/Calls any sequence of calls, and MultiBook/Moves what a run of the merge does
--                one by one.
--   Base         the shared helpers: integers, lists, the hash map as an interface, heaps.
--   The other modules under these parts prove what their names say.
--
-- `update` writes a record of the event to the sink, calls the handler of the event's type, and counts.
-- A handler is a function from the state to the state, under the name it has in the code. The sink is
-- the list of the calls it was given. An order that the market adds trades with the other side of the
-- book, whose trades pass on to the paper orders at the level, then with paper orders, and rests. An
-- order of the strategy reads the book, and rests on a paper level.
--
-- `ReplaySession` checks the times of events and feeds one engine. `MultiBookSimulator` has an engine for
-- each book, whose records go through the scoped sink of the book to one sink of several books. It keeps
-- one buffered event of each stream, and the entries of these and of the events of the strategy on one
-- heap; `step` applies the first of them to its book and fills the buffer of its stream again.
--
-- Representation. Timestamps, prices, quantities and ids are integers without a bound; the code's
-- `std::int64_t` is assumed not to overflow. Sequence numbers wrap at 2^64. The index of a call of a
-- Fenwick tree is assumed to be below 2^64 - 1. A node pointer is an index into the pool, an intrusive
-- queue the list of its indices. `std::priority_queue` is a list in descending order, `std::sort` an
-- insertion sort. The hash map is the record `HashMap` of Base/Maps, whose laws are the behaviour of
-- `ska::flat_hash_map` and `std::unordered_map` that the code relies on; Base/Assoc fills it with
-- entry lists. An exception is a value, beside the state that the call leaves. A source is the list of
-- what its `next` has left to give, and what an adapter makes of a raw event is `none` where it throws
-- or refuses. The sink of several books that a `MultiBookSimulator` has is the list of the calls it
-- was given.
--
-- Fuel. A matching loop over price levels has one round for each price in the heap and one more; the
-- loop over paper levels one for each lot that is left; a loop of a Fenwick tree one for each index.
-- `fill_buffer` has one round for each event its stream has left and one more; `step_until` one for each
-- entry of the heap and each event that the streams have left, and one more.
--
-- Not modelled: the Python bindings, the Parquet source and the main programs, which are input, output
-- and glue; the adapter and the instrument, whose scaling is `long double` arithmetic.
pub mod Base
pub mod Types
pub mod Pool
pub mod Fenwick
pub mod Ledger
pub mod Engine
pub mod MultiSink
pub mod Session
pub mod MultiBook
