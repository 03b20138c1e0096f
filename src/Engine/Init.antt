-- ===== src/Engine/Init.antt =====
-- `clear_state`, `init_from_l2_snapshot` and `init_from_l3_snapshot`. An exception is a value, beside
-- the state that was reached.
use lobsim.Base.{
  ℕ, ℤ, pos, not, ◌&&◌, Option, none, some, List, [], ◌∷◌, HashMap, int_eq, is_some, length, ◌==ℕ◌,
  if◌then◌else◌,
}
use lobsim.Types.{
  Side, is_buy, NormalizedLobEvent, add as add_update, historical, unknown_order_id_sentinel,
  unknown_trader_id_sentinel, no_aggressor_needed_sentinel, error, next_u64, reset as reset_call,
  SinkCall, historical_order_pool_exhausted,
}
use lobsim.Pool.{acquire, store, reset}
use lobsim.Engine.State.{
  PaperTradingSimulator, OrderNode, blank_order_node, book, with_book, heap, with_heap, queue_at,
  emit, emit_diagnostic, init, OrderPoolConfig,
}
use lobsim.Engine.Prices.{encode, push_price}
use lobsim.Engine.Add.{join_book}

pub data SnapshotError : Type 0 where
  different_sizes duplicate_price duplicate_order_id : SnapshotError

pub record L2Row : Type 0 where
  pub side : Side
  pub price : ℤ
  pub quantity : ℤ

pub record L3Row : Type 0 where
  pub side : Side
  pub price : ℤ
  pub quantity : ℤ
  pub order_id : ℤ
  pub trader_id : ℤ

-- The arrays side by side.
unfoldable pub l2_rows : List Side → List ℤ → List ℤ → List L2Row
l2_rows (s ∷ ss) (p ∷ ps) (q ∷ qs) = record { side = s; price = p; quantity = q } ∷ l2_rows ss ps qs
l2_rows _ _ _ = []

pub l3_rows : List Side → List ℤ → List ℤ → List ℤ → List ℤ → List L3Row
l3_rows (s ∷ ss) (p ∷ ps) (q ∷ qs) (o ∷ os) (t ∷ ts) =
    record { side = s; price = p; quantity = q; order_id = o; trader_id = t }
    ∷ l3_rows ss ps qs os ts
l3_rows _ _ _ _ _ = []

-- The event of the diagnostic on a full pool: `NormalizedLobEvent{}` and what is set.
abbrev row_event : Side → ℤ → ℤ → ℤ → ℤ → NormalizedLobEvent
row_event side price quantity order_id trader_id = record {
  ts_exchange = pos 0;
  ts_received = pos 0;
  side = side;
  update_type = add_update;
  price_ticks = price;
  quantity_lots = quantity;
  order_id = order_id;
  trader_id = trader_id;
  aggressor_id = no_aggressor_needed_sentinel;
  update_source = historical;
  symbol_id = "";
}

abbrev pub row_node : ℤ → ℤ → ℤ → ℕ → OrderNode
row_node quantity order_id trader_id arrival = record {
  order_id = order_id;
  trader_id = trader_id;
  qty = quantity;
  source = historical;
  arrival_seq = arrival;
}

module _ ⦃H : HashMap⦄ where
  abbrev pub Outcome : Type 0
  Outcome = Option SnapshotError × PaperTradingSimulator

  unfoldable pub clear_state : PaperTradingSimulator → PaperTradingSimulator
  clear_state s = emit reset_call (record s {
    bids = H.empty;
    asks = H.empty;
    bids_heap = [];
    asks_heap = [];
    order_info = H.empty;
    paper_orders = H.empty;
    paper_order_info = H.empty;
    paper_bids = H.empty;
    paper_asks = H.empty;
    order_arrival_seq = 0;
    order_pool = reset s.order_pool;
    paper_pool = reset s.paper_pool;
  })

  abbrev pub push_side : Side → ℤ → PaperTradingSimulator → PaperTradingSimulator
  push_side side px s = with_heap side (push_price (encode (not (is_buy side)) px) (heap side s)) s

  abbrev pub store_row : ℕ → OrderNode → PaperTradingSimulator → PaperTradingSimulator
  store_row n node s = record s {
    order_arrival_seq = next_u64 s.order_arrival_seq;
    order_pool = store s.order_pool n blank_order_node node;
  }

  -- A row of an L2 snapshot whose price is new.
  abbrev pub add_l2_row : L2Row → PaperTradingSimulator → PaperTradingSimulator
  add_l2_row r s =
      let (node, pool) = acquire blank_order_node s.pool_config.historical_capacity s.order_pool in
      elim node [
        | none ↦
            emit_diagnostic
              (row_event r.side r.price r.quantity unknown_order_id_sentinel
                unknown_trader_id_sentinel)
              historical_order_pool_exhausted error s
        | some n ↦
            let s1 =
              store_row n
                (row_node r.quantity unknown_order_id_sentinel unknown_trader_id_sentinel
                  s.order_arrival_seq)
                (record s { order_pool = pool }) in
            push_side r.side r.price
              (with_book r.side (H.assign r.price (n ∷ []) (book r.side s1)) s1)
      ]

  unfoldable pub l2_loop : List L2Row → PaperTradingSimulator → Outcome
  l2_loop [] s = (none, s)
  l2_loop (r ∷ rs) s =
      let rest = l2_loop rs (add_l2_row r s) in
      if is_some (H.find r.price (book r.side s)) then (some duplicate_price, s) else rest

  unfoldable pub init_from_l2_snapshot :
      List Side → List ℤ → List ℤ → PaperTradingSimulator → Outcome
  unfolding l2_loop l2_rows clear_state
  init_from_l2_snapshot sides prices quantities s =
      if (length sides ==ℕ length prices) && (length sides ==ℕ length quantities)
      then l2_loop (l2_rows sides prices quantities) (clear_state s)
      else (some different_sizes, clear_state s)

  -- The node of a row at the end of its level.
  abbrev pub place_l3_row : L3Row → ℕ → PaperTradingSimulator → PaperTradingSimulator
  place_l3_row r n s =
      let node = row_node r.quantity r.order_id r.trader_id s.order_arrival_seq in
      let s3 = join_book r.side r.price n (store_row n node s) in
      record s3 {
        order_info =
            H.emplace r.order_id (record { side = r.side; price_ticks = r.price; node = some n })
              s3.order_info;
      }

  -- `book[price]` makes an empty level where there is none, also if the pool is full.
  abbrev pub add_l3_row : L3Row → PaperTradingSimulator → PaperTradingSimulator
  add_l3_row r s =
      let queue = queue_at r.price (book r.side s) in
      let s0 = with_book r.side (H.assign r.price queue (book r.side s)) s in
      let (node, pool) =
        acquire blank_order_node s0.pool_config.historical_capacity s0.order_pool in
      elim node [
        | none ↦
            emit_diagnostic (row_event r.side r.price r.quantity r.order_id r.trader_id)
              historical_order_pool_exhausted error s0
        | some n ↦ place_l3_row r n (record s0 { order_pool = pool })
      ]

  unfoldable pub l3_loop : List L3Row → PaperTradingSimulator → Outcome
  l3_loop [] s = (none, s)
  l3_loop (r ∷ rs) s =
      let rest = l3_loop rs (add_l3_row r s) in
      if is_some (H.find r.order_id s.order_info) then (some duplicate_order_id, s) else rest

  unfoldable pub init_from_l3_snapshot :
      List Side → List ℤ → List ℤ → List ℤ → List ℤ → PaperTradingSimulator → Outcome
  unfolding l3_loop l3_rows clear_state
  init_from_l3_snapshot sides prices quantities order_ids trader_ids s =
      if (length sides ==ℕ length prices)
        && (length sides ==ℕ length quantities)
        && (length sides ==ℕ length order_ids)
        && (length sides ==ℕ length trader_ids)
      then l3_loop (l3_rows sides prices quantities order_ids trader_ids) (clear_state s)
      else (some different_sizes, clear_state s)

  -- The constructor that takes the levels of a book.
  abbrev pub init_with_levels :
      List Side → List ℤ → List ℤ → Option (List SinkCall) → OrderPoolConfig → Outcome
  init_with_levels sides prices quantities sink config =
      init_from_l2_snapshot sides prices quantities (record (init config) { sink = sink })
