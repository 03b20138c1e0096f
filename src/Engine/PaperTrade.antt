-- ===== src/Engine/PaperTrade.antt =====
-- Paper orders as the passive side of a trade: `apply_paper_trade_at_level`, for a trade that the market
-- made at the level, and `trade_against_paper_level`, for an order that runs into the level.
use lobsim.Base.{
  ℕ, ℤ, pos, ◌+ℤ◌, ◌-ℤ◌, neg_ℤ, min_ℤ, ltb_ℤ, leb_ℤ, ◌==ℤ◌, Bool, true, false, ◌||◌, none, some,
  List, [], ◌∷◌, HashMap, int_eq, if◌then◌else◌,
}
use lobsim.Types.{
  Side, opposite, NormalizedLobEvent, on_fill, FillRecord, strategy, is_add,
  unknown_order_id_sentinel, unknown_trader_id_sentinel,
}
use lobsim.Fenwick.{add, sum}
use lobsim.Engine.State.{
  PaperTradingSimulator, PaperOrderLevel, PaperOrder, PaperOrderStatus, partially_filled, filled,
  cancelled, rejected, emit, paper_node,
}
use lobsim.Engine.PaperLevel.{
  find_paper_level, close_level, market_ahead, drop_paper_node, drop_paper_order,
  remove_paper_order,
}

-- The lots that a fill takes, and the record of the fill. An order that was added is named as the
-- taker; a trade report names none.
abbrev passive_fill : ℕ → Side → ℤ → ℤ → ℤ → PaperOrder → NormalizedLobEvent → FillRecord
passive_fill seq side px qty order_id order e = record {
  seq = seq;
  ts_exchange = e.ts_exchange;
  ts_received = e.ts_received;
  price_ticks = px;
  qty_lots = qty;
  maker_side = side;
  maker_order_id = order_id;
  maker_trader_id = order.original_event.trader_id;
  maker_source = strategy;
  taker_side = opposite side;
  taker_order_id = if is_add e.update_type then e.order_id else unknown_order_id_sentinel;
  taker_trader_id = if is_add e.update_type then e.trader_id else unknown_trader_id_sentinel;
  taker_source = e.update_source;
  book_key = e.symbol_id;
}

abbrev pub taken_fill : ℕ → Side → ℤ → ℤ → ℤ → PaperOrder → NormalizedLobEvent → FillRecord
taken_fill seq side px qty order_id order e = record {
  seq = seq;
  ts_exchange = e.ts_exchange;
  ts_received = e.ts_received;
  price_ticks = px;
  qty_lots = qty;
  maker_side = side;
  maker_order_id = order_id;
  maker_trader_id = order.original_event.trader_id;
  maker_source = strategy;
  taker_side = opposite side;
  taker_order_id = e.order_id;
  taker_trader_id = e.trader_id;
  taker_source = e.update_source;
  book_key = e.symbol_id;
}

-- `status == FILLED || status == CANCELLED || status == REJECTED`.
abbrev pub is_done : PaperOrderStatus → Bool
is_done filled = true
is_done cancelled = true
is_done rejected = true
is_done _ = false

module _ ⦃H : HashMap⦄ where
  -- The variables of either loop. `stop` is a `break`; `moved` counts the market lots that were passed
  -- (`marketConsumed`), or the lots that were traded (`consumed`).
  pub record Walk : Type 0 where
    pub stop : Bool
    pub trade_lots : ℤ
    pub moved : ℤ
    pub level : PaperOrderLevel
    pub sim : PaperTradingSimulator

  -- A write through the reference to an order.
  abbrev pub put_order : ℤ → PaperOrder → PaperTradingSimulator → PaperTradingSimulator
  put_order id order s = record s { paper_orders = H.assign id order s.paper_orders }

  abbrev pub go_on : ℤ → ℤ → PaperOrderLevel × PaperTradingSimulator → Walk
  go_on trade_lots moved (level, s) = record {
    stop = false;
    trade_lots = trade_lots;
    moved = moved;
    level = level;
    sim = s;
  }

  -- `order.remaining_qty -= fillQty` and what goes with it, for an order that is not filled up.
  abbrev fill_part :
      ℕ
      → ℤ
      → ℤ
      → PaperOrder
      → PaperOrderLevel × PaperTradingSimulator
      → PaperOrderLevel × PaperTradingSimulator
  fill_part n id qty order (level, s) = (
    record level {
      queued_lots = level.queued_lots -ℤ qty;
      paper_qty = add order.paper_index (neg_ℤ qty) level.paper_qty;
    },
    put_order id
        (record order { remaining_qty = order.remaining_qty -ℤ qty; status = partially_filled }) s,
  )

  -- The lots that are to trade before the order: market lots not yet passed, and paper lots.
  abbrev ahead_market : PaperOrder → Walk → ℤ
  ahead_market order w =
      if ltb_ℤ w.moved (market_ahead order.placement_seq w.level)
      then market_ahead order.placement_seq w.level -ℤ w.moved
      else pos 0

  abbrev queue_ahead : PaperOrder → Walk → ℤ
  queue_ahead order w = ahead_market order w +ℤ sum order.paper_index w.level.paper_qty

  -- The trade has come to the order: it is filled by what is left.
  abbrev fill_reached : Side → ℤ → NormalizedLobEvent → ℕ → ℤ → PaperOrder → ℤ → ℤ → Walk → Walk
  fill_reached side px e n id order trade moved w =
      let qty = min_ℤ order.remaining_qty trade in
      let told = emit (on_fill (passive_fill w.sim.seq side px qty id order e)) w.sim in
      if leb_ℤ order.remaining_qty (pos 0)
      then go_on trade moved (drop_paper_order n (w.level, w.sim))
      else if leb_ℤ qty (pos 0)
      then go_on trade moved (w.level, w.sim)
      else if ltb_ℤ qty order.remaining_qty
      then go_on (trade -ℤ qty) moved (fill_part n id qty order (w.level, told))
      else go_on (trade -ℤ qty) moved (remove_paper_order n qty (w.level, told))

  -- One round of the loop of `apply_paper_trade_at_level`.
  unfoldable pub passive_round : Side → ℤ → NormalizedLobEvent → ℕ → Walk → Walk
  passive_round side px e n w =
      let id = (paper_node w.sim n).order_id in
      if leb_ℤ w.trade_lots (pos 0)
      then record w { stop = true }
      else elim (H.find id w.sim.paper_orders) [
        | none ↦ go_on w.trade_lots w.moved (drop_paper_node n (w.level, w.sim))
        | some order ↦
            if leb_ℤ w.trade_lots (queue_ahead order w)
            then record w { stop = true }
            else fill_reached side px e n id order (w.trade_lots -ℤ queue_ahead order w)
                (w.moved +ℤ ahead_market order w) w
      ]

  unfoldable pub passive_loop : Side → ℤ → NormalizedLobEvent → List ℕ → Walk → Walk
  passive_loop side px e [] w = w
  passive_loop side px e (n ∷ ns) w =
      let w' = passive_round side px e n w in
      let rest = passive_loop side px e ns w' in if w'.stop then w' else rest

  abbrev pub start : ℤ → PaperOrderLevel → PaperTradingSimulator → Walk
  start trade_lots level s = go_on trade_lots (pos 0) (level, s)

  unfoldable pub apply_paper_trade_at_level :
      Side → ℤ → ℤ → NormalizedLobEvent → PaperTradingSimulator → PaperTradingSimulator
  unfolding passive_loop passive_round
  apply_paper_trade_at_level side px trade_lots e s =
      if leb_ℤ trade_lots (pos 0) then s else elim (find_paper_level side px s) [
        | none ↦ s
        | some level ↦
            let w = passive_loop side px e level.orders (start trade_lots level s) in
            close_level side px w.level w.sim
      ]

  -- `if (order.remaining_qty == 0) ... else ...`. `order` is the order after the fill, in the map too.
  abbrev pub after_take :
      ℕ
      → ℤ
      → ℤ
      → PaperOrder
      → PaperOrderLevel × PaperTradingSimulator
      → PaperOrderLevel × PaperTradingSimulator
  after_take n id qty order (level, s) =
      if order.remaining_qty ==ℤ pos 0
      then remove_paper_order n qty (level, put_order id order s)
      else (
        record level {
          queued_lots = level.queued_lots -ℤ qty;
          paper_qty = add order.paper_index (neg_ℤ qty) level.paper_qty;
        },
        put_order id (record order { status = partially_filled }) s,
      )

  abbrev pub take_from : Side → ℤ → NormalizedLobEvent → ℕ → ℤ → PaperOrder → Walk → Walk
  take_from side px e n id order w =
      let qty = min_ℤ order.remaining_qty w.trade_lots in
      let told =
        if ltb_ℤ (pos 0) qty
        then emit (on_fill (taken_fill w.sim.seq side px qty id order e)) w.sim
        else w.sim in
      go_on (w.trade_lots -ℤ qty) (w.moved +ℤ qty) (
        after_take n id qty (record order { remaining_qty = order.remaining_qty -ℤ qty })
          (w.level, told))

  -- One round of the loop of `trade_against_paper_level`.
  unfoldable pub taking_round : Side → ℤ → NormalizedLobEvent → ℕ → Walk → Walk
  taking_round side px e n w =
      let id = (paper_node w.sim n).order_id in
      if leb_ℤ w.trade_lots (pos 0)
      then record w { stop = true }
      else elim (H.find id w.sim.paper_orders) [
        | none ↦ go_on w.trade_lots w.moved (drop_paper_node n (w.level, w.sim))
        | some order ↦
            if leb_ℤ order.remaining_qty (pos 0) || is_done order.status
            then go_on w.trade_lots w.moved (drop_paper_order n (w.level, w.sim))
            else take_from side px e n id order w
      ]

  unfoldable pub taking_loop : Side → ℤ → NormalizedLobEvent → List ℕ → Walk → Walk
  taking_loop side px e [] w = w
  taking_loop side px e (n ∷ ns) w =
      let w' = taking_round side px e n w in
      let rest = taking_loop side px e ns w' in if w'.stop then w' else rest

  -- The lots that were traded, and the state.
  unfoldable pub trade_against_paper_level :
      Side → ℤ → ℤ → NormalizedLobEvent → PaperTradingSimulator → ℤ × PaperTradingSimulator
  unfolding taking_loop taking_round
  trade_against_paper_level side px trade_lots e s =
      if leb_ℤ trade_lots (pos 0) then (pos 0, s) else elim (find_paper_level side px s) [
        | none ↦ (pos 0, s)
        | some level ↦
            let w = taking_loop side px e level.orders (start trade_lots level s) in
            (w.moved, close_level side px w.level w.sim)
      ]
