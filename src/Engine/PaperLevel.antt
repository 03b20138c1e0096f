-- ===== src/Engine/PaperLevel.antt =====
-- Paper levels: `ensure_paper_level`, `find_paper_level`, `remove_paper_order`, and the queue position
-- of a paper order among the market orders of its level.
use lobsim.Base.{
  ℕ, suc, ◌+◌, ℤ, pos, ◌-ℤ◌, neg_ℤ, min_ℤ, leb_ℤ, Option, none, some, List, [], ◌∷◌, ◌++◌, HashMap,
  int_eq, nat_eq, is_empty, length, ltb, ◌==ℕ◌, if◌then◌else◌,
}
use lobsim.Types.{Side}
use lobsim.Pool.{release}
use lobsim.Fenwick.{ensure_size, add, sum}
use lobsim.Engine.State.{
  PaperTradingSimulator, PaperOrderLevel, PaperOrder, OrderPriorityQueue, OrderNode, blank_level,
  blank_paper_node, book, paper_levels, with_paper_levels, paper_node, order_node,
}

-- `erase(iterator_to(node))` of an intrusive list, if the node's hook is linked, which is to say if the
-- list holds the node.
unfoldable pub erase_node : ℕ → List ℕ → List ℕ
erase_node n [] = []
erase_node n (m ∷ ms) = if m ==ℕ n then ms else m ∷ erase_node n ms

-- `std::lower_bound(seqs.begin(), seqs.end(), k) - seqs.begin()` on a sorted vector.
unfoldable pub lower_bound : List ℕ → ℕ → ℕ
lower_bound [] k = 0
lower_bound (x ∷ xs) k = if ltb x k then suc (lower_bound xs k) else 0

module _ ⦃H : HashMap⦄ where
  -- `levels.find(price_ticks)`.
  abbrev pub find_paper_level : Side → ℤ → PaperTradingSimulator → Option PaperOrderLevel
  find_paper_level side px s = H.find px (paper_levels side s)

  -- A write through the reference to a level.
  abbrev pub put_level : Side → ℤ → PaperOrderLevel → PaperTradingSimulator → PaperTradingSimulator
  put_level side px level s = with_paper_levels side (H.assign px level (paper_levels side s)) s

  abbrev erase_level : Side → ℤ → PaperTradingSimulator → PaperTradingSimulator
  erase_level side px s = with_paper_levels side (H.erase px (paper_levels side s)) s

  -- `if (level.orders.empty()) levels.erase(...)`, and else the level as it was changed.
  abbrev pub close_level :
      Side → ℤ → PaperOrderLevel → PaperTradingSimulator → PaperTradingSimulator
  close_level side px level s =
      if is_empty level.orders then erase_level side px s else put_level side px level s

  -- A market order at the end of the level's vectors.
  abbrev pub append_market : OrderNode → ℕ → PaperOrderLevel → PaperOrderLevel
  append_market node idx level = record level {
    market_seqs = level.market_seqs ++ node.arrival_seq ∷ [];
    market_index_by_seq = H.emplace node.arrival_seq idx level.market_index_by_seq;
    market_qty = add idx node.qty (ensure_size (idx + 1) level.market_qty);
  }

  fill_level : PaperTradingSimulator → OrderPriorityQueue → ℕ → PaperOrderLevel → PaperOrderLevel
  fill_level s [] idx level = level
  fill_level s (n ∷ ns) idx level =
      fill_level s ns (idx + 1) (append_market (order_node s n) idx level)

  abbrev new_level : Side → ℤ → PaperTradingSimulator → PaperOrderLevel
  new_level side px s = elim (H.find px (book side s)) [
    | none ↦ blank_level
    | some queue ↦
        fill_level s queue 0
          (record blank_level { market_qty = ensure_size (length queue) blank_level.market_qty })
  ]

  -- The level, and the state in which it is stored.
  unfoldable pub ensure_paper_level :
      Side → ℤ → PaperTradingSimulator → PaperOrderLevel × PaperTradingSimulator
  unfolding fill_level
  ensure_paper_level side px s = elim (find_paper_level side px s) [
    | some level ↦ (level, s)
    | none ↦ (new_level side px s, put_level side px (new_level side px s) s)
  ]

  -- The lambda `marketAhead`: the lots of market orders that came before `placement_seq`.
  abbrev pub market_ahead : ℕ → PaperOrderLevel → ℤ
  market_ahead placement_seq level =
      if is_empty level.market_seqs
      then pos 0
      else sum (lower_bound level.market_seqs placement_seq) level.market_qty

  -- `market_qty.add(market_index_by_seq[seq], delta)`, where the sequence number is known.
  abbrev adjust_market : ℕ → ℤ → PaperOrderLevel → PaperOrderLevel
  adjust_market seq delta level = elim (H.find seq level.market_index_by_seq) [
    | none ↦ level
    | some idx ↦ record level { market_qty = add idx delta level.market_qty }
  ]

  abbrev pub adjust_market_at : Side → ℤ → ℕ → ℤ → PaperTradingSimulator → PaperTradingSimulator
  adjust_market_at side px seq delta s = elim (find_paper_level side px s) [
    | none ↦ s
    | some level ↦ put_level side px (adjust_market seq delta level) s
  ]

  -- `paper_pool_.release(node)`.
  abbrev release_paper : ℕ → PaperTradingSimulator → PaperTradingSimulator
  release_paper n s = record s { paper_pool = release blank_paper_node (some n) s.paper_pool }

  -- Drop a node whose order is gone: `orders.erase`, `paper_order_info.erase`, `release`.
  abbrev pub drop_paper_node :
      ℕ → PaperOrderLevel × PaperTradingSimulator → PaperOrderLevel × PaperTradingSimulator
  drop_paper_node n (level, s) = (
    record level { orders = erase_node n level.orders },
    release_paper n
        (record s { paper_order_info = H.erase (paper_node s n).order_id s.paper_order_info }),
  )

  -- And the order with it: `paper_orders.erase`.
  abbrev pub drop_paper_order :
      ℕ → PaperOrderLevel × PaperTradingSimulator → PaperOrderLevel × PaperTradingSimulator
  drop_paper_order n (level, s) =
      drop_paper_node n
        (level, record s { paper_orders = H.erase (paper_node s n).order_id s.paper_orders })

  -- `removed_qty`, after the two tests that replace it and the `std::min`.
  abbrev pub clipped : ℤ → ℤ → ℤ
  clipped removed_qty remaining_qty =
      min_ℤ (if leb_ℤ removed_qty (pos 0) then remaining_qty else removed_qty) remaining_qty

  -- The last branch of `remove_paper_order`, for a positive number of lots. (The status that the order
  -- is given is erased with it.)
  abbrev take_out :
      ℕ
      → ℤ
      → PaperOrder
      → PaperOrderLevel × PaperTradingSimulator
      → PaperOrderLevel × PaperTradingSimulator
  take_out n removed_qty order (level, s) = drop_paper_order n (
    record level {
      queued_lots = level.queued_lots -ℤ clipped removed_qty order.remaining_qty;
      paper_qty =
          add order.paper_index (neg_ℤ (clipped removed_qty order.remaining_qty)) level.paper_qty;
    },
    s,
  )

  unfoldable pub remove_paper_order :
      ℕ → ℤ → PaperOrderLevel × PaperTradingSimulator → PaperOrderLevel × PaperTradingSimulator
  unfolding erase_node
  remove_paper_order n removed_qty (level, s) =
      elim (H.find (paper_node s n).order_id s.paper_orders) [
        | none ↦ drop_paper_node n (level, s)
        | some order ↦
            if leb_ℤ (if leb_ℤ removed_qty (pos 0) then order.remaining_qty else removed_qty)
              (pos 0)
            then drop_paper_order n (level, s)
            else take_out n removed_qty order (level, s)
      ]
