-- ===== src/Engine/Add.antt =====
-- `on_add` and `on_aggressive_trade`.
use lobsim.Base.{
  ℕ, suc, ◌+◌, ℤ, pos, ◌+ℤ◌, ltb_ℤ, leb_ℤ, pos_part, Bool, true, not, ◌||◌, none, some, [], ◌∷◌,
  ◌++◌, HashMap, int_eq, nat_eq, is_empty, is_some, length, if◌then◌else◌,
}
use lobsim.Types.{
  Side, opposite, is_buy, NormalizedLobEvent, is_strategy, error, warning, next_u64,
  add_invoked_with_negative_quantity, add_duplicate_order_id, paper_order_pool_exhausted,
  historical_order_pool_exhausted, invalid_update_type,
}
use lobsim.Pool.{acquire, store}
use lobsim.Fenwick.{add, ensure_size}
use lobsim.Engine.State.{
  PaperTradingSimulator, PaperOrder, PaperOrderLevel, OrderNode, open_order, partially_filled,
  blank_order_node, blank_paper_node, book, with_book, heap, with_heap, queue_at, emit_diagnostic,
}
use lobsim.Engine.Prices.{best_opposite_price, encode, push_price}
use lobsim.Engine.PaperLevel.{ensure_paper_level, find_paper_level, put_level, append_market}
use lobsim.Engine.Cross.{look, crosses, crosses_best, view_levels, match_levels, take_paper_levels}

module _ ⦃H : HashMap⦄ where
  abbrev pub is_known : ℤ → PaperTradingSimulator → Bool
  is_known id s =
      is_some (H.find id s.order_info)
      || is_some (H.find id s.paper_orders)
      || is_some (H.find id s.paper_order_info)

  -- The first look at the other side, and the loop, for a strategy's order: on a copy of the heap.
  abbrev pub cross_paper : NormalizedLobEvent → PaperTradingSimulator → ℤ × PaperTradingSimulator
  cross_paper e s =
      let opp = opposite e.side in
      let (best, h) = best_opposite_price (is_buy e.side) (book opp s) (heap opp s) in
      if crosses_best e best
      then view_levels (suc (length h)) (crosses e) e h (e.quantity_lots, s)
      else (e.quantity_lots, s)

  -- And for an order of the market: on the heap itself.
  abbrev pub cross_market : NormalizedLobEvent → PaperTradingSimulator → ℤ × PaperTradingSimulator
  cross_market e s =
      let (best, s1) = look e s in
      let r =
        if crosses_best e best
        then match_levels (suc (length (heap (opposite e.side) s1))) e (e.quantity_lots, s1)
        else (e.quantity_lots, s1) in
      take_paper_levels (pos_part r.0) (crosses e) e r

  -- The order that a strategy leaves at its price.
  abbrev resting_order : NormalizedLobEvent → ℤ → ℕ → PaperOrderLevel → PaperOrder
  resting_order e remaining arrival level = record {
    original_event = e;
    status = if ltb_ℤ remaining e.quantity_lots then partially_filled else open_order;
    remaining_qty = remaining;
    placement_seq = arrival;
    paper_index = level.next_paper_index;
  }

  abbrev join_level : ℤ → ℕ → PaperOrderLevel → PaperOrderLevel
  join_level remaining n level = record level {
    next_paper_index = level.next_paper_index + 1;
    paper_qty =
        add level.next_paper_index remaining
          (ensure_size (level.next_paper_index + 1) level.paper_qty);
    orders = level.orders ++ n ∷ [];
    queued_lots = level.queued_lots +ℤ remaining;
  }

  abbrev place_paper :
      NormalizedLobEvent → ℤ → ℕ → PaperOrderLevel × PaperTradingSimulator → PaperTradingSimulator
  place_paper e remaining n (level, s) =
      put_level e.side e.price_ticks (join_level remaining n level) (record s {
        order_arrival_seq = next_u64 s.order_arrival_seq;
        paper_orders =
            H.emplace e.order_id (resting_order e remaining s.order_arrival_seq level)
              s.paper_orders;
        paper_pool = store s.paper_pool n blank_paper_node (record { order_id = e.order_id });
        paper_order_info =
            H.emplace e.order_id
              (record { side = e.side; price_ticks = e.price_ticks; node = some n })
              s.paper_order_info;
      })

  unfoldable pub rest_paper : NormalizedLobEvent → ℤ → PaperTradingSimulator → PaperTradingSimulator
  rest_paper e remaining s =
      let (node, pool) = acquire blank_paper_node s.pool_config.paper_capacity s.paper_pool in
      elim node [
        | none ↦ emit_diagnostic e paper_order_pool_exhausted error s
        | some n ↦
            place_paper e remaining n
              (ensure_paper_level e.side e.price_ticks (record s { paper_pool = pool }))
      ]

  abbrev pub resting_node : NormalizedLobEvent → ℤ → ℕ → OrderNode
  resting_node e remaining arrival = record {
    order_id = e.order_id;
    trader_id = e.trader_id;
    qty = remaining;
    source = e.update_source;
    arrival_seq = arrival;
  }

  -- The queue gets the node, and the heap the price if the level was empty.
  abbrev pub join_book : Side → ℤ → ℕ → PaperTradingSimulator → PaperTradingSimulator
  join_book side px n s =
      let queue = queue_at px (book side s) in
      let s1 = with_book side (H.assign px (queue ++ n ∷ []) (book side s)) s in
      if is_empty queue
      then with_heap side (push_price (encode (not (is_buy side)) px) (heap side s1)) s1
      else s1

  -- A paper level at the price counts the order among its market orders.
  abbrev pub join_market : Side → ℤ → OrderNode → PaperTradingSimulator → PaperTradingSimulator
  join_market side px node s = elim (find_paper_level side px s) [
    | none ↦ s
    | some level ↦ put_level side px (append_market node (length level.market_seqs) level) s
  ]

  -- The order in the pool and in the index, with the next arrival number.
  abbrev pub index_order :
      NormalizedLobEvent → ℤ → ℕ → PaperTradingSimulator → PaperTradingSimulator
  index_order e remaining n s = record s {
    order_arrival_seq = next_u64 s.order_arrival_seq;
    order_pool =
        store s.order_pool n blank_order_node (resting_node e remaining s.order_arrival_seq);
    order_info =
        H.emplace e.order_id (record { side = e.side; price_ticks = e.price_ticks; node = some n })
          s.order_info;
  }

  abbrev pub place_market :
      NormalizedLobEvent → ℤ → ℕ → PaperTradingSimulator → PaperTradingSimulator
  place_market e remaining n s =
      join_market e.side e.price_ticks (resting_node e remaining s.order_arrival_seq)
        (join_book e.side e.price_ticks n (index_order e remaining n s))

  unfoldable pub rest_market :
      NormalizedLobEvent → ℤ → PaperTradingSimulator → PaperTradingSimulator
  rest_market e remaining s =
      let (node, pool) = acquire blank_order_node s.pool_config.historical_capacity s.order_pool in
      elim node [
        | none ↦ emit_diagnostic e historical_order_pool_exhausted error s
        | some n ↦ place_market e remaining n (record s { order_pool = pool })
      ]

  abbrev pub add_paper : NormalizedLobEvent → PaperTradingSimulator → PaperTradingSimulator
  add_paper e s =
      let (remaining, s') = cross_paper e s in
      if leb_ℤ remaining (pos 0) then s' else rest_paper e remaining s'

  abbrev pub add_market : NormalizedLobEvent → PaperTradingSimulator → PaperTradingSimulator
  add_market e s =
      let (remaining, s') = cross_market e s in
      if leb_ℤ remaining (pos 0) then s' else rest_market e remaining s'

  unfoldable pub on_add : NormalizedLobEvent → PaperTradingSimulator → PaperTradingSimulator
  unfolding rest_paper rest_market
  on_add e s =
      if ltb_ℤ e.quantity_lots (pos 0)
      then emit_diagnostic e add_invoked_with_negative_quantity error s
      else if is_known e.order_id s
      then emit_diagnostic e add_duplicate_order_id warning s
      else if is_strategy e.update_source
      then add_paper e s
      else add_market e s

  -- The trades of an aggressive order: with the book, and then with paper orders.
  abbrev pub aggress : NormalizedLobEvent → PaperTradingSimulator → ℤ × PaperTradingSimulator
  aggress e s =
      let h = heap (opposite e.side) s in
      let r = view_levels (suc (length h)) (λ px. true) e h (e.quantity_lots, s) in
      take_paper_levels (pos_part r.0) (λ px. true) e r

  unfoldable pub on_aggressive_trade :
      NormalizedLobEvent → PaperTradingSimulator → PaperTradingSimulator
  on_aggressive_trade e s =
      if not (is_strategy e.update_source)
      then emit_diagnostic e invalid_update_type error s
      else if leb_ℤ e.quantity_lots (pos 0)
      then emit_diagnostic e add_invoked_with_negative_quantity error s
      else (let (remaining, s') = aggress e s in record s' { seq = next_u64 s'.seq })
