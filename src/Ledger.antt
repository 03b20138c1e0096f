-- ===== src/Ledger.antt =====
-- `InMemoryLogSink`: cpp/include/lobsim/in_memory_sink.hpp and cpp/src/in_memory_sink.cpp. The vectors
-- of what was logged, and a ledger with the fills and the quantities of each order of the strategy.
pub mod Entry
pub mod Invariant
pub mod Tests
use lobsim.Base.{
  ℕ, ℤ, pos, ◌+ℤ◌, ◌-ℤ◌, min_ℤ, max_ℤ, ltb_ℤ, leb_ℤ, ◌==ℤ◌, Bool, true, false, not, Option, none,
  some, List, [], ◌∷◌, ◌++◌, HashMap, int_eq, is_some, if◌then◌else◌,
}
use lobsim.Types.{
  Side, UpdateSource, UpdateType, add, delete, subtract, match, set, aggressive_trade, invalid,
  FillRecord, EventApplyRecord, DiagnosticRecord, SinkCall, on_fill as fill_call,
  on_event_apply as event_call, on_diagnostic as diagnostic_call, reset as reset_call, is_strategy,
  unknown_order_id_sentinel,
}

pub data PaperOrderLedgerStatus : Type 0 where
  open_order partially_filled filled cancelled rejected : PaperOrderLedgerStatus

pub data PaperOrderFillRole : Type 0 where
  maker taker : PaperOrderFillRole

pub record PaperOrderFill : Type 0 where
  pub seq : ℕ
  pub ts_exchange : ℤ
  pub ts_received : ℤ
  pub price_ticks : ℤ
  pub qty_lots : ℤ
  pub role : PaperOrderFillRole

pub record PaperOrderState : Type 0 where
  pub order_id : ℤ
  pub side : Side
  pub price_ticks : ℤ
  pub initial_qty : ℤ
  pub remaining_qty : ℤ
  pub filled_qty : ℤ
  pub status : PaperOrderLedgerStatus
  pub created_seq : ℕ
  pub last_update_seq : ℕ

pub record PaperOrderLedgerEntry : Type 0 where
  pub state : PaperOrderState
  pub fills : List PaperOrderFill

-- `status == CANCELLED || status == REJECTED`, and with `FILLED`.
abbrev pub is_withdrawn : PaperOrderLedgerStatus → Bool
is_withdrawn cancelled = true
is_withdrawn rejected = true
is_withdrawn _ = false

abbrev pub is_closed : PaperOrderLedgerStatus → Bool
is_closed filled = true
is_closed st = is_withdrawn st

-- The entry of an order that a strategy has added.
abbrev pub opened : EventApplyRecord → PaperOrderLedgerEntry
opened r = record {
  state = record {
    order_id = r.order_id;
    side = r.side;
    price_ticks = r.price_ticks;
    initial_qty = r.qty_lots;
    remaining_qty = r.qty_lots;
    filled_qty = pos 0;
    status = open_order;
    created_seq = r.seq;
    last_update_seq = r.seq;
  };
  fills = [];
}

-- `if (r.qty_lots > 0)`: the quantities of an entry after a fill.
abbrev pub count_fill : FillRecord → PaperOrderState → PaperOrderState
count_fill r state =
    let remaining = max_ℤ (state.remaining_qty -ℤ r.qty_lots) (pos 0) in
    if ltb_ℤ (pos 0) r.qty_lots
    then record state {
      filled_qty = state.filled_qty +ℤ r.qty_lots;
      remaining_qty = remaining;
      status = if remaining ==ℤ pos 0 then filled else partially_filled;
      last_update_seq = r.seq;
    }
    else state

pub fill_entry : PaperOrderFillRole → FillRecord → PaperOrderLedgerEntry → PaperOrderLedgerEntry
fill_entry role r entry = if is_withdrawn entry.state.status then entry else record {
  state = count_fill r entry.state;
  fills =
      entry.fills
      ++ record {
        seq = r.seq;
        ts_exchange = r.ts_exchange;
        ts_received = r.ts_received;
        price_ticks = r.price_ticks;
        qty_lots = r.qty_lots;
        role = role;
      }
        ∷ [];
}

-- The branches of `update_strategy_order` on an entry that was found.
pub subtract_state : EventApplyRecord → PaperOrderState → PaperOrderState
subtract_state r state =
    let left = state.remaining_qty -ℤ min_ℤ state.remaining_qty r.qty_lots in
    if is_closed state.status
    then state
    else if r.qty_lots ==ℤ pos 0
    then record state { last_update_seq = r.seq }
    else record state {
      remaining_qty = left;
      status = if left ==ℤ pos 0 then cancelled else state.status;
      last_update_seq = r.seq;
    }

pub set_state : EventApplyRecord → PaperOrderState → PaperOrderState
set_state r state =
    let new_qty = if ltb_ℤ r.qty_lots (pos 0) then pos 0 else r.qty_lots in
    let total_qty = state.filled_qty +ℤ new_qty in
    if is_closed state.status then state else record state {
      remaining_qty = new_qty;
      initial_qty = if ltb_ℤ state.initial_qty total_qty then total_qty else state.initial_qty;
      status =
          if new_qty ==ℤ pos 0
          then cancelled
          else if ltb_ℤ (pos 0) state.filled_qty
          then partially_filled
          else open_order;
      last_update_seq = r.seq;
    }

pub delete_state : EventApplyRecord → PaperOrderState → PaperOrderState
delete_state r state = elim state.status [
  | filled ↦ state
  | open_order ↦ record state { remaining_qty = pos 0; status = cancelled; last_update_seq = r.seq }
  | partially_filled ↦ record state {
    remaining_qty = pos 0;
    status = cancelled;
    last_update_seq = r.seq;
  }
  | cancelled ↦ record state { remaining_qty = pos 0; status = cancelled; last_update_seq = r.seq }
  | rejected ↦ record state { remaining_qty = pos 0; status = cancelled; last_update_seq = r.seq }
]

module _ ⦃H : HashMap⦄ where
  pub record InMemoryLogSink : Type 0 where
    pub fills : List FillRecord
    pub events : List EventApplyRecord
    pub diagnostics : List DiagnosticRecord
    pub paper_ledger : H.Map ℤ PaperOrderLedgerEntry
    pub rejected_strategy_events : List EventApplyRecord

  abbrev pub empty_sink : InMemoryLogSink
  empty_sink = record {
    fills = [];
    events = [];
    diagnostics = [];
    paper_ledger = H.empty;
    rejected_strategy_events = [];
  }

  abbrev pub find_paper_order : ℤ → InMemoryLogSink → Option PaperOrderLedgerEntry
  find_paper_order id s = H.find id s.paper_ledger

  -- A write through the iterator, where the order is found.
  abbrev pub change_entry :
      ℤ → (PaperOrderLedgerEntry → PaperOrderLedgerEntry) → InMemoryLogSink → InMemoryLogSink
  change_entry id f s = elim (find_paper_order id s) [
    | none ↦ s
    | some entry ↦ record s { paper_ledger = H.assign id (f entry) s.paper_ledger }
  ]

  abbrev pub change_state :
      ℤ → (PaperOrderState → PaperOrderState) → InMemoryLogSink → InMemoryLogSink
  change_state id f s = change_entry id (λ entry. record entry { state = f entry.state }) s

  abbrev reject : EventApplyRecord → InMemoryLogSink → InMemoryLogSink
  reject r s = record s { rejected_strategy_events = s.rejected_strategy_events ++ r ∷ [] }

  unfoldable pub apply_strategy_fill :
      ℤ → UpdateSource → PaperOrderFillRole → FillRecord → InMemoryLogSink → InMemoryLogSink
  apply_strategy_fill id source role r s =
      if not (is_strategy source)
      then s
      else if id ==ℤ unknown_order_id_sentinel
      then s
      else change_entry id (fill_entry role r) s

  -- The `switch` on the type.
  unfoldable pub strategy_event : UpdateType → EventApplyRecord → InMemoryLogSink → InMemoryLogSink
  strategy_event add r s =
      if leb_ℤ r.qty_lots (pos 0)
      then reject r s
      else if is_some (find_paper_order r.order_id s)
      then reject r s
      else record s { paper_ledger = H.emplace r.order_id (opened r) s.paper_ledger }
  strategy_event subtract r s =
      if ltb_ℤ r.qty_lots (pos 0) then reject r s else change_state r.order_id (subtract_state r) s
  strategy_event set r s = change_state r.order_id (set_state r) s
  strategy_event delete r s = change_state r.order_id (delete_state r) s
  strategy_event match r s = s
  strategy_event aggressive_trade r s = s
  strategy_event invalid r s = s

  unfoldable pub update_strategy_order : EventApplyRecord → InMemoryLogSink → InMemoryLogSink
  unfolding strategy_event
  update_strategy_order r s = if is_strategy r.source then strategy_event r.update_type r s else s

  unfoldable pub on_fill : FillRecord → InMemoryLogSink → InMemoryLogSink
  unfolding apply_strategy_fill
  on_fill r s = apply_strategy_fill r.taker_order_id r.taker_source taker r (
      apply_strategy_fill r.maker_order_id r.maker_source maker r
        (record s { fills = s.fills ++ r ∷ [] }))

  unfoldable pub on_event_apply : EventApplyRecord → InMemoryLogSink → InMemoryLogSink
  unfolding update_strategy_order
  on_event_apply r s = update_strategy_order r (record s { events = s.events ++ r ∷ [] })

  unfoldable pub on_diagnostic : DiagnosticRecord → InMemoryLogSink → InMemoryLogSink
  on_diagnostic r s = record s { diagnostics = s.diagnostics ++ r ∷ [] }

  unfoldable pub reset : InMemoryLogSink → InMemoryLogSink
  reset s = empty_sink

  abbrev pub drain_fills : InMemoryLogSink → List FillRecord × InMemoryLogSink
  drain_fills s = (s.fills, record s { fills = [] })

  abbrev pub drain_events : InMemoryLogSink → List EventApplyRecord × InMemoryLogSink
  drain_events s = (s.events, record s { events = [] })

  -- A call of the interface, and the calls of a log, the last one first.
  unfoldable pub receive : SinkCall → InMemoryLogSink → InMemoryLogSink
  unfolding on_fill on_event_apply on_diagnostic reset
  receive (fill_call r) s = on_fill r s
  receive (event_call r) s = on_event_apply r s
  receive (diagnostic_call r) s = on_diagnostic r s
  receive reset_call s = reset s

  unfoldable pub receive_all : List SinkCall → InMemoryLogSink → InMemoryLogSink
  unfolding receive
  receive_all [] s = s
  receive_all (c ∷ cs) s = receive c (receive_all cs s)
