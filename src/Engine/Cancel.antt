-- ===== src/Engine/Cancel.antt =====
-- Changes of an order of the market: `on_delete`, `on_set`, `on_subtract`, `on_match` and
-- `on_partial_order_cancel`.
use lobsim.Base.{
  ℕ, ℤ, pos, ◌-ℤ◌, neg_ℤ, min_ℤ, ltb_ℤ, ◌==ℤ◌, Bool, true, false, ◌&&◌, none, some, HashMap, List,
  int_eq, is_empty, if◌then◌else◌,
}
use lobsim.Types.{
  opposite, same_side, NormalizedLobEvent, is_strategy, on_fill, FillRecord, error, warning,
  DiagnosticRecordCode, unknown_order_id_sentinel, unknown_trader_id_sentinel,
  delete_non_existing_historical_order_id,
  provided_side_on_delete_differs_from_original_side_for_order_id,
  provided_price_on_delete_differs_from_original_price_for_order_id,
  set_with_negative_liquidity_requested_was_set_to_zero, set_non_existing_order_id_is_rejected,
  provided_side_on_set_differs_from_original_side_for_order_id,
  provided_price_on_set_differs_from_original_price_for_order_id,
  requested_reduce_order_by_zero_quantity, requested_reduce_non_existing_order_id,
  provided_side_on_order_reduce_differs_from_original_side_for_order_id,
  provided_price_on_order_reduce_differs_from_original_price_for_order_id,
  requested_order_reduce_with_volume_larger_than_available_for_order_id,
  paper_order_invokes_passive_match_instead_of_aggressive_trade,
  corrupt_book_price_in_order_info_but_not_in_book, requested_reduce_order_by_negative_quantity,
}
use lobsim.Pool.{release, store}
use lobsim.Engine.State.{
  Book, PaperTradingSimulator, OrderInfo, OrderNode, OrderPriorityQueue, blank_order_node, book,
  with_book, order_node, emit, emit_diagnostic,
}
use lobsim.Engine.PaperLevel.{erase_node, adjust_market_at}
use lobsim.Engine.PaperTrade.{apply_paper_trade_at_level}
use lobsim.Engine.PaperEdit.{delete_paper_order, reduce_paper_order, set_paper_order}

module _ ⦃H : HashMap⦄ where
  -- `node->qty = qty`.
  abbrev pub set_qty : ℕ → ℤ → PaperTradingSimulator → PaperTradingSimulator
  set_qty n qty s = record s {
    order_pool = store s.order_pool n blank_order_node (record (order_node s n) { qty = qty });
  }

  -- `order_pool_.release`, `order_info.erase`.
  abbrev pub drop_order : ℤ → ℕ → PaperTradingSimulator → PaperTradingSimulator
  drop_order id n s = record s {
    order_info = H.erase id s.order_info;
    order_pool = release blank_order_node (some n) s.order_pool;
  }

  -- The queue in the book, which is erased if it is empty.
  abbrev pub put_rest : ℤ → List ℕ → Book → Book
  put_rest px rest b = if is_empty rest then H.erase px b else H.assign px rest b

  -- `queue.erase`, `release`, `book.erase` if the queue is empty, `order_info.erase`.
  abbrev pub remove_order :
      ℤ → OrderInfo → ℕ → OrderPriorityQueue → PaperTradingSimulator → PaperTradingSimulator
  remove_order id i n queue s =
      let s' = drop_order id n s in
      with_book i.side (put_rest i.price_ticks (erase_node n queue) (book i.side s')) s'

  -- The warnings on a side or a price that is not the one stored.
  abbrev pub check_stored :
      NormalizedLobEvent
      → OrderInfo
      → DiagnosticRecordCode
      → DiagnosticRecordCode
      → PaperTradingSimulator
      → PaperTradingSimulator
  check_stored e i on_side on_price s =
      let s1 = if same_side i.side e.side then s else emit_diagnostic e on_side warning s in
      if i.price_ticks ==ℤ e.price_ticks then s1 else emit_diagnostic e on_price warning s1

  -- What the handlers have in common: the stored order, by id alone, and its queue.
  abbrev pub with_order :
      NormalizedLobEvent
      → OrderInfo
      → (ℕ → OrderPriorityQueue → PaperTradingSimulator)
      → PaperTradingSimulator
      → PaperTradingSimulator
  with_order e i body s = elim (H.find i.price_ticks (book i.side s)) [
    | none ↦ emit_diagnostic e corrupt_book_price_in_order_info_but_not_in_book error s
    | some queue ↦ elim i.node [
      | none ↦ emit_diagnostic e corrupt_book_price_in_order_info_but_not_in_book error s
      | some n ↦ body n queue
    ]
  ]

  abbrev pub delete_found :
      NormalizedLobEvent → OrderInfo → PaperTradingSimulator → PaperTradingSimulator
  delete_found e i s =
      with_order e i
        (λ n queue.
          let node = order_node s n in
          let s1 =
            if ltb_ℤ (pos 0) node.qty
            then adjust_market_at i.side i.price_ticks node.arrival_seq (neg_ℤ node.qty) s
            else s in
          remove_order e.order_id i n queue s1)
        s

  -- `on_delete`, for an event of the market.
  unfoldable pub delete_order : NormalizedLobEvent → PaperTradingSimulator → PaperTradingSimulator
  delete_order e s = elim (H.find e.order_id s.order_info) [
    | none ↦ emit_diagnostic e delete_non_existing_historical_order_id warning s
    | some i ↦ delete_found e i (
        check_stored e i provided_side_on_delete_differs_from_original_side_for_order_id
          provided_price_on_delete_differs_from_original_price_for_order_id s)
  ]

  unfoldable pub on_delete : NormalizedLobEvent → PaperTradingSimulator → PaperTradingSimulator
  unfolding delete_order delete_paper_order
  on_delete e s = if is_strategy e.update_source then delete_paper_order e s else delete_order e s

  abbrev pub set_order_found :
      NormalizedLobEvent → OrderInfo → PaperTradingSimulator → PaperTradingSimulator
  set_order_found e i s =
      with_order e i
        (λ n queue.
          let node = order_node s n in
          let new_quantity = if ltb_ℤ e.quantity_lots (pos 0) then pos 0 else e.quantity_lots in
          let delta = new_quantity -ℤ node.qty in
          let s1 =
            if delta ==ℤ pos 0
            then s
            else adjust_market_at i.side i.price_ticks node.arrival_seq delta s in
          if new_quantity ==ℤ pos 0
          then remove_order e.order_id i n queue s1
          else set_qty n new_quantity s1)
        s

  -- `on_set`, for an event of the market.
  unfoldable pub set_order : NormalizedLobEvent → PaperTradingSimulator → PaperTradingSimulator
  set_order e s =
      let s1 =
        if ltb_ℤ e.quantity_lots (pos 0)
        then emit_diagnostic e set_with_negative_liquidity_requested_was_set_to_zero warning s
        else s in
      elim (H.find e.order_id s1.order_info) [
        | none ↦ emit_diagnostic e set_non_existing_order_id_is_rejected warning s1
        | some i ↦ set_order_found e i (
            check_stored e i provided_side_on_set_differs_from_original_side_for_order_id
              provided_price_on_set_differs_from_original_price_for_order_id s1)
      ]

  unfoldable pub on_set : NormalizedLobEvent → PaperTradingSimulator → PaperTradingSimulator
  unfolding set_order set_paper_order
  on_set e s =
      if is_strategy e.update_source
      then set_paper_order e.order_id e.quantity_lots s
      else set_order e s

  -- The fill of a trade that the market reports on a resting order.
  abbrev pub match_fill : ℕ → OrderInfo → OrderNode → ℤ → NormalizedLobEvent → FillRecord
  match_fill seq i node take e = record {
    seq = seq;
    ts_exchange = e.ts_exchange;
    ts_received = e.ts_received;
    price_ticks = i.price_ticks;
    qty_lots = take;
    maker_side = i.side;
    maker_order_id = e.order_id;
    maker_trader_id = node.trader_id;
    maker_source = node.source;
    taker_side = opposite i.side;
    taker_order_id = unknown_order_id_sentinel;
    taker_trader_id = unknown_trader_id_sentinel;
    taker_source = e.update_source;
    book_key = e.symbol_id;
  }

  -- The paper orders and the market sums of the level see `take` lots go.
  abbrev pub pass_on :
      Bool → NormalizedLobEvent → OrderInfo → ℕ → ℤ → PaperTradingSimulator → PaperTradingSimulator
  pass_on is_trade e i arrival_seq take s =
      if ltb_ℤ (pos 0) take
      then adjust_market_at i.side i.price_ticks arrival_seq (neg_ℤ take)
          (if is_trade then apply_paper_trade_at_level i.side i.price_ticks take e s else s)
      else s

  -- The stored order is found: `n` is its node, `queue` its level.
  abbrev pub reduce_body :
      Bool
      → NormalizedLobEvent
      → OrderInfo
      → PaperTradingSimulator
      → ℕ
      → OrderPriorityQueue
      → PaperTradingSimulator
  reduce_body is_trade e i s n queue =
      let node = order_node s n in
      let take = min_ℤ node.qty e.quantity_lots in
      let liquidity = node.qty -ℤ take in
      let s1 =
        if ltb_ℤ node.qty e.quantity_lots
        then emit_diagnostic e requested_order_reduce_with_volume_larger_than_available_for_order_id
            warning s
        else s in
      let s2 = pass_on is_trade e i node.arrival_seq take s1 in
      let s3 = if is_trade then emit (on_fill (match_fill s2.seq i node take e)) s2 else s2 in
      let s4 =
        if liquidity ==ℤ pos 0
        then remove_order e.order_id i n queue s3
        else set_qty n liquidity s3 in
      if is_trade && is_strategy e.update_source
      then emit_diagnostic e paper_order_invokes_passive_match_instead_of_aggressive_trade error s4
      else s4

  abbrev pub reduce_order_found :
      Bool → NormalizedLobEvent → OrderInfo → PaperTradingSimulator → PaperTradingSimulator
  reduce_order_found is_trade e i s = with_order e i (reduce_body is_trade e i s) s

  unfoldable pub on_partial_order_cancel :
      Bool → NormalizedLobEvent → PaperTradingSimulator → PaperTradingSimulator
  on_partial_order_cancel is_trade e s =
      if ltb_ℤ e.quantity_lots (pos 0)
      then emit_diagnostic e requested_reduce_order_by_negative_quantity error s
      else if e.quantity_lots ==ℤ pos 0
      then emit_diagnostic e requested_reduce_order_by_zero_quantity warning s
      else elim (H.find e.order_id s.order_info) [
        | none ↦ emit_diagnostic e requested_reduce_non_existing_order_id warning s
        | some i ↦ reduce_order_found is_trade e i (
            check_stored e i provided_side_on_order_reduce_differs_from_original_side_for_order_id
              provided_price_on_order_reduce_differs_from_original_price_for_order_id s)
      ]

  unfoldable pub on_subtract : NormalizedLobEvent → PaperTradingSimulator → PaperTradingSimulator
  unfolding on_partial_order_cancel reduce_paper_order
  on_subtract e s =
      if is_strategy e.update_source
      then reduce_paper_order e s
      else on_partial_order_cancel false e s

  unfoldable pub on_match : NormalizedLobEvent → PaperTradingSimulator → PaperTradingSimulator
  unfolding on_partial_order_cancel
  on_match e s = on_partial_order_cancel true e s
