-- ===== src/Engine/PaperEdit.antt =====
-- The strategy's changes of its own orders: `reduce_paper_order`, `set_paper_order`, and the strategy
-- branch of `on_delete`.
use lobsim.Base.{
  ℕ, ℤ, pos, ◌+ℤ◌, ◌-ℤ◌, neg_ℤ, min_ℤ, ltb_ℤ, leb_ℤ, ◌==ℤ◌, Option, none, some, HashMap, int_eq,
  if◌then◌else◌,
}
use lobsim.Types.{
  NormalizedLobEvent, error, warning, requested_reduce_paper_order_by_negative_quantity,
  requested_reduce_paper_order_by_zero_quantity, delete_non_existing_paper_order_id,
}
use lobsim.Pool.{release}
use lobsim.Fenwick.{add}
use lobsim.Engine.State.{
  PaperTradingSimulator, PaperOrderLevel, PaperOrder, PaperOrderInfo, emit_diagnostic,
  blank_paper_node,
}
use lobsim.Engine.PaperLevel.{
  find_paper_level, put_level, close_level, erase_node, remove_paper_order,
}
use lobsim.Engine.PaperTrade.{put_order}

module _ ⦃H : HashMap⦄ where
  abbrev release_pointer : Option ℕ → PaperTradingSimulator → PaperTradingSimulator
  release_pointer node s = record s { paper_pool = release blank_paper_node node s.paper_pool }

  -- The level of the order is gone: the order goes too.
  abbrev forget_order : ℤ → PaperOrderInfo → PaperTradingSimulator → PaperTradingSimulator
  forget_order id i s = release_pointer i.node (record s {
    paper_order_info = H.erase id s.paper_order_info;
    paper_orders = H.erase id s.paper_orders;
  })

  -- The order is gone: its node goes too.
  abbrev forget_node :
      ℤ → PaperOrderInfo → PaperOrderLevel → PaperTradingSimulator → PaperTradingSimulator
  forget_node id i level s = release_pointer i.node (
      put_level i.side i.price_ticks
        (elim i.node [
          | none ↦ level
          | some n ↦ record level { orders = erase_node n level.orders }
        ])
        (record s { paper_order_info = H.erase id s.paper_order_info }))

  -- `remove_paper_order` and the erasure of a level that it leaves empty.
  abbrev pub cancel_order :
      PaperOrderInfo → ℤ → PaperOrderLevel → PaperTradingSimulator → PaperTradingSimulator
  cancel_order i qty level s = elim i.node [
    | none ↦ close_level i.side i.price_ticks level s
    | some n ↦
        let (level', s') = remove_paper_order n qty (level, s) in
        close_level i.side i.price_ticks level' s'
  ]

  -- The look-ups that the three handlers begin with: the info, the level, the order.
  abbrev with_paper_order :
      ℤ
      → (PaperOrderInfo → PaperOrderLevel → PaperOrder → PaperTradingSimulator)
      → PaperTradingSimulator
      → PaperTradingSimulator
      → PaperTradingSimulator
  with_paper_order id body missing s = elim (H.find id s.paper_order_info) [
    | none ↦ missing
    | some i ↦ elim (find_paper_level i.side i.price_ticks s) [
      | none ↦ forget_order id i s
      | some level ↦ elim (H.find id s.paper_orders) [
        | none ↦ forget_node id i level s
        | some order ↦ body i level order
      ]
    ]
  ]

  -- The order and its level after `remaining_qty` and the sums have moved by `delta`.
  abbrev resize_order :
      ℤ
      → ℤ
      → ℤ
      → PaperOrderInfo
      → PaperOrderLevel
      → PaperOrder
      → PaperTradingSimulator
      → PaperTradingSimulator
  resize_order id new_qty delta i level order s =
      put_level i.side i.price_ticks
        (record level {
          queued_lots = level.queued_lots +ℤ delta;
          paper_qty = add order.paper_index delta level.paper_qty;
        })
        (put_order id (record order { remaining_qty = new_qty }) s)

  abbrev reduce_found :
      ℤ
      → ℤ
      → PaperTradingSimulator
      → PaperOrderInfo
      → PaperOrderLevel
      → PaperOrder
      → PaperTradingSimulator
  reduce_found id qty s i level order =
      let take = min_ℤ order.remaining_qty qty in
      if leb_ℤ take (pos 0)
      then s
      else if leb_ℤ order.remaining_qty take
      then cancel_order i order.remaining_qty level s
      else resize_order id (order.remaining_qty -ℤ take) (neg_ℤ take) i level order s

  unfoldable pub reduce_paper_order :
      NormalizedLobEvent → PaperTradingSimulator → PaperTradingSimulator
  reduce_paper_order e s =
      if ltb_ℤ e.quantity_lots (pos 0)
      then emit_diagnostic e requested_reduce_paper_order_by_negative_quantity error s
      else if e.quantity_lots ==ℤ pos 0
      then emit_diagnostic e requested_reduce_paper_order_by_zero_quantity warning s
      else with_paper_order e.order_id (reduce_found e.order_id e.quantity_lots s) s s

  abbrev set_found :
      ℤ
      → ℤ
      → PaperTradingSimulator
      → PaperOrderInfo
      → PaperOrderLevel
      → PaperOrder
      → PaperTradingSimulator
  set_found id new_qty s i level order =
      if new_qty ==ℤ order.remaining_qty
      then s
      else if new_qty ==ℤ pos 0
      then cancel_order i order.remaining_qty level s
      else if ltb_ℤ new_qty order.remaining_qty
      then resize_order id new_qty (neg_ℤ (order.remaining_qty -ℤ new_qty)) i level order s
      else resize_order id new_qty (new_qty -ℤ order.remaining_qty) i level order s

  unfoldable pub set_paper_order : ℤ → ℤ → PaperTradingSimulator → PaperTradingSimulator
  set_paper_order id qty s =
      with_paper_order id (set_found id (if ltb_ℤ qty (pos 0) then pos 0 else qty) s) s s

  -- `on_delete`, for an event of the strategy.
  unfoldable pub delete_paper_order :
      NormalizedLobEvent → PaperTradingSimulator → PaperTradingSimulator
  delete_paper_order e s =
      with_paper_order e.order_id (λ i level order. cancel_order i order.remaining_qty level s)
        (emit_diagnostic e delete_non_existing_paper_order_id warning s) s
