-- ===== src/Ledger/Tests.antt =====
-- Calls of the sink, and the ledger after them.
use lobsim.Ledger.{
  partially_filled, PaperOrderLedgerEntry, empty_sink, find_paper_order, maker, receive_all,
  fill_entry, subtract_state,
}
use lobsim.Base.{
  int_eq, assoc_map, pos, negsuc, List, [], ◌∷◌, refl, some, ℤ, ◌≡◌, max_ℤ, min_ℤ, ◌+ℤ◌, ◌-ℤ◌,
}
use lobsim.Types.{
  add, subtract, EventApplyRecord, FillRecord, SinkCall, UpdateType, buy, historical, sell,
  strategy,
}
use lobsim.Types.{on_fill as fill_call, on_event_apply as event_call}
use lobsim.Ledger.Entry.{IsSound, fill_of}
use lobsim.Ledger.Invariant.{receive_all-IsSound}

abbrev pub applied : UpdateType → ℤ → EventApplyRecord
applied type qty = record {
  seq = 3;
  ts_exchange = pos 0;
  ts_received = pos 1;
  side = buy;
  update_type = type;
  source = strategy;
  price_ticks = pos 101;
  qty_lots = qty;
  order_id = pos 10;
  trader_id = pos 7;
  aggressor_id = negsuc 1;
  book_key = "BTC";
}

abbrev pub bought : FillRecord
bought = record {
  seq = 4;
  ts_exchange = pos 0;
  ts_received = pos 1;
  price_ticks = pos 101;
  qty_lots = pos 2;
  maker_side = buy;
  maker_order_id = pos 10;
  maker_trader_id = pos 7;
  maker_source = strategy;
  taker_side = sell;
  taker_order_id = pos 4;
  taker_trader_id = pos 8;
  taker_source = historical;
  book_key = "BTC";
}

-- The last call first.
abbrev pub calls : List SinkCall
calls =
    event_call (applied subtract (pos 1)) ∷ fill_call bought ∷ event_call (applied add (pos 5)) ∷ []

abbrev kept : PaperOrderLedgerEntry
kept = record {
  state = record {
    order_id = pos 10;
    side = buy;
    price_ticks = pos 101;
    initial_qty = pos 5;
    remaining_qty = pos 2;
    filled_qty = pos 2;
    status = partially_filled;
    created_seq = 3;
    last_update_seq = 3;
  };
  fills = fill_of bought maker ∷ [];
}

kept_found : find_paper_order (pos 10) (receive_all calls empty_sink) ≡ some kept
unfolding receive_all subtract_state fill_entry max_ℤ ◌-ℤ◌ min_ℤ ◌+ℤ◌
kept_found = refl

receive_all-IsSound_example : IsSound (pos 10) kept
receive_all-IsSound_example = receive_all-IsSound calls (pos 10) kept kept_found
