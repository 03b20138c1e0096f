-- ===== src/Types.antt =====
-- The events and records of the simulator: cpp/include/lobsim/types.hpp, lob_event.hpp and
-- log_sink.hpp. Timestamps, prices, quantities and ids are `std::int64_t`, the integers of Base/Int.
use lobsim.Base.{ℕ, ◌+◌, ◌%◌, ◌^◌, ℤ, negsuc, Bool, true, false, String}

pub data Side : Type 0 where
  sell buy : Side

-- `invalid` is a value of the underlying byte that no enumerator has: the `default:` of `update`.
pub data UpdateType : Type 0 where
  add delete subtract match set aggressive_trade invalid : UpdateType

pub data UpdateSource : Type 0 where
  historical strategy unknown : UpdateSource

abbrev pub unknown_order_id_sentinel : ℤ
unknown_order_id_sentinel = negsuc 0

abbrev pub unknown_trader_id_sentinel : ℤ
unknown_trader_id_sentinel = negsuc 0

abbrev pub no_aggressor_needed_sentinel : ℤ
no_aggressor_needed_sentinel = negsuc 1

pub record NormalizedLobEvent : Type 0 where
  pub ts_exchange : ℤ
  pub ts_received : ℤ
  pub side : Side
  pub update_type : UpdateType
  pub price_ticks : ℤ
  pub quantity_lots : ℤ
  pub order_id : ℤ
  pub trader_id : ℤ
  pub aggressor_id : ℤ
  pub update_source : UpdateSource
  pub symbol_id : String

pub record FillRecord : Type 0 where
  pub seq : ℕ
  pub ts_exchange : ℤ
  pub ts_received : ℤ
  pub price_ticks : ℤ
  pub qty_lots : ℤ
  pub maker_side : Side
  pub maker_order_id : ℤ
  pub maker_trader_id : ℤ
  pub maker_source : UpdateSource
  pub taker_side : Side
  pub taker_order_id : ℤ
  pub taker_trader_id : ℤ
  pub taker_source : UpdateSource
  pub book_key : String

pub record EventApplyRecord : Type 0 where
  pub seq : ℕ
  pub ts_exchange : ℤ
  pub ts_received : ℤ
  pub side : Side
  pub update_type : UpdateType
  pub source : UpdateSource
  pub price_ticks : ℤ
  pub qty_lots : ℤ
  pub order_id : ℤ
  pub trader_id : ℤ
  pub aggressor_id : ℤ
  pub book_key : String

pub data DiagnosticRecordCode : Type 0 where
  add_duplicate_order_id : DiagnosticRecordCode
  delete_non_existing_paper_order_id : DiagnosticRecordCode
  delete_non_existing_historical_order_id : DiagnosticRecordCode
  provided_side_on_delete_differs_from_original_side_for_order_id : DiagnosticRecordCode
  provided_price_on_delete_differs_from_original_price_for_order_id : DiagnosticRecordCode
  set_with_negative_liquidity_requested_was_set_to_zero : DiagnosticRecordCode
  set_non_existing_order_id_is_rejected : DiagnosticRecordCode
  provided_side_on_set_differs_from_original_side_for_order_id : DiagnosticRecordCode
  provided_price_on_set_differs_from_original_price_for_order_id : DiagnosticRecordCode
  requested_reduce_order_by_zero_quantity : DiagnosticRecordCode
  requested_reduce_non_existing_order_id : DiagnosticRecordCode
  provided_side_on_order_reduce_differs_from_original_side_for_order_id : DiagnosticRecordCode
  provided_price_on_order_reduce_differs_from_original_price_for_order_id : DiagnosticRecordCode
  requested_order_reduce_with_volume_larger_than_available_for_order_id : DiagnosticRecordCode
  paper_order_invokes_passive_match_instead_of_aggressive_trade : DiagnosticRecordCode
  invalid_update_type : DiagnosticRecordCode
  add_invoked_with_negative_quantity : DiagnosticRecordCode
  requested_reduce_paper_order_by_negative_quantity : DiagnosticRecordCode
  corrupt_book_price_in_order_info_but_not_in_book : DiagnosticRecordCode
  requested_reduce_order_by_negative_quantity : DiagnosticRecordCode
  set_log_sink_for_unknown_book_in_multi_book_simulator : DiagnosticRecordCode
  depth_at_for_unknown_book_in_multi_book_simulator : DiagnosticRecordCode
  l2_top_n_for_unknown_book_in_multi_book_simulator : DiagnosticRecordCode
  get_best_price_ticks_for_unknown_book_in_multi_book_simulator : DiagnosticRecordCode
  heap_entry_without_buffered_event : DiagnosticRecordCode
  apply_event_requested_for_unknown_book : DiagnosticRecordCode
  non_monotonic_ts_received_detected_in_multi_book_simulator : DiagnosticRecordCode
  duplicate_stream_for_book_in_multi_book_simulator : DiagnosticRecordCode
  submit_strategy_event_for_unknown_book : DiagnosticRecordCode
  strategy_event_time_travel : DiagnosticRecordCode
  requested_reduce_paper_order_by_zero_quantity : DiagnosticRecordCode
  historical_order_pool_exhausted : DiagnosticRecordCode
  paper_order_pool_exhausted : DiagnosticRecordCode

pub data DiagnosticRecordSeverity : Type 0 where
  info warning error : DiagnosticRecordSeverity

pub record DiagnosticRecord : Type 0 where
  pub seq : ℕ
  pub ts_exchange : ℤ
  pub ts_received : ℤ
  pub code : DiagnosticRecordCode
  pub severity : DiagnosticRecordSeverity
  pub book_key : String

-- The calls of an `ILogSink`, as values.
pub data SinkCall : Type 0 where
  on_fill : FillRecord → SinkCall
  on_event_apply : EventApplyRecord → SinkCall
  on_diagnostic : DiagnosticRecord → SinkCall
  reset : SinkCall

-- `side == Side::BUY`.
abbrev pub is_buy : Side → Bool
is_buy buy = true
is_buy sell = false

-- `side == Side::BUY ? Side::SELL : Side::BUY`.
abbrev pub opposite : Side → Side
opposite buy = sell
opposite sell = buy

abbrev pub same_side : Side → Side → Bool
same_side buy s = is_buy s
same_side sell buy = false
same_side sell sell = true

-- `source == UpdateSource::STRATEGY`.
abbrev pub is_strategy : UpdateSource → Bool
is_strategy strategy = true
is_strategy _ = false

abbrev pub is_add : UpdateType → Bool
is_add add = true
is_add _ = false

-- `n++` on a `std::uint64_t`.
abbrev pub next_u64 : ℕ → ℕ
next_u64 n = (n + 1) % 2 ^ 64
