-- ===== src/Engine/Update.antt =====
-- `update`: the record of the event, the handler of its type, and the next sequence number.
use lobsim.Base.{ℕ, Option, List, [], ◌∷◌, HashMap}
use lobsim.Types.{
  NormalizedLobEvent, EventApplyRecord, UpdateType, add, delete, subtract, match, set,
  aggressive_trade, invalid, on_event_apply, SinkCall, error, invalid_update_type, next_u64,
}
use lobsim.Engine.State.{PaperTradingSimulator, emit, emit_diagnostic}
use lobsim.Engine.Cancel.{on_delete, on_set, on_subtract, on_match}
use lobsim.Engine.Add.{on_add, on_aggressive_trade}

abbrev pub apply_record : ℕ → NormalizedLobEvent → EventApplyRecord
apply_record seq e = record {
  seq = seq;
  ts_exchange = e.ts_exchange;
  ts_received = e.ts_received;
  side = e.side;
  update_type = e.update_type;
  source = e.update_source;
  price_ticks = e.price_ticks;
  qty_lots = e.quantity_lots;
  order_id = e.order_id;
  trader_id = e.trader_id;
  aggressor_id = e.aggressor_id;
  book_key = e.symbol_id;
}

module _ ⦃H : HashMap⦄ where
  -- The `switch` on the type.
  unfoldable pub dispatch :
      UpdateType → NormalizedLobEvent → PaperTradingSimulator → PaperTradingSimulator
  dispatch add e s = on_add e s
  dispatch aggressive_trade e s = on_aggressive_trade e s
  dispatch delete e s = on_delete e s
  dispatch subtract e s = on_subtract e s
  dispatch match e s = on_match e s
  dispatch set e s = on_set e s
  dispatch invalid e s = emit_diagnostic e invalid_update_type error s

  unfoldable pub update : NormalizedLobEvent → PaperTradingSimulator → PaperTradingSimulator
  unfolding dispatch
  update e s =
      let s' = dispatch e.update_type e (emit (on_event_apply (apply_record s.seq e)) s) in
      record s' { seq = next_u64 s'.seq }

  unfoldable pub set_log_sink :
      Option (List SinkCall) → PaperTradingSimulator → PaperTradingSimulator
  set_log_sink sink s = record s { sink = sink }

  -- Any sequence of events.
  unfoldable pub replay : List NormalizedLobEvent → PaperTradingSimulator → PaperTradingSimulator
  replay [] s = s
  replay (e ∷ es) s = replay es (update e s)
