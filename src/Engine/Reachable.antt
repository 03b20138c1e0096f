-- ===== src/Engine/Reachable.antt =====
-- The states that the public operations of the simulator reach, in any order: `update`, the two
-- snapshot loads (also one that throws), the query that pops stale prices, and `set_log_sink`.
use lobsim.Base.{
  int_eq, HashMap, ==ℤ_iff, List, Option, [], arith, false, if_both, is_some, option_both, true, ℕ,
  ℤ, ◌∷◌, ◌≡◌, not,
}
use lobsim.Types.{buy, sell, NormalizedLobEvent, Side, SinkCall, is_buy}
use lobsim.Engine.Covered.{
  Covered, Covered-stable, IsCovered-empty, IsCovered-join_new, init-Covered, Covered-join_book,
}
use lobsim.Engine.Init.{
  L2Row, Outcome, add_l2_row, clear_state, init_from_l2_snapshot, init_from_l3_snapshot, l2_loop,
  push_side, L3Row, add_l3_row, l2_rows, l3_loop, l3_rows, place_l3_row, row_node, store_row,
}
use lobsim.Engine.Prices.{get_best_price_ticks, is_live}
use lobsim.Engine.State.{
  Book, OrderPoolConfig, PaperTradingSimulator, blank_order_node, book, emit_diagnostic, init,
  queue_at, with_book,
}
use lobsim.Engine.Update.{set_log_sink, update}
use lobsim.Pool.{acquire}
use lobsim.Engine.BestPrice.{IsBest, best_opposite_price-IsBest}
use lobsim.Engine.Covered.Update.{update-Covered}

module _ ⦃H : HashMap⦄ where
  pub data Reachable (config : OrderPoolConfig) : PaperTradingSimulator → Type 0 where
    started : Reachable config (init config)
    updated :
        (e : NormalizedLobEvent) (s : PaperTradingSimulator)
        → Reachable config s
        → Reachable config (update e s)
    loaded_l2 :
        (sides : List Side) (prices quantities : List ℤ) (s : PaperTradingSimulator)
        → Reachable config s
        → Reachable config (init_from_l2_snapshot sides prices quantities s).1
    loaded_l3 :
        (sides : List Side) (prices quantities order_ids trader_ids : List ℤ)
        (s : PaperTradingSimulator)
        → Reachable config s
        → Reachable config (init_from_l3_snapshot sides prices quantities order_ids trader_ids s).1
    queried :
        (side : Side) (s : PaperTradingSimulator)
        → Reachable config s
        → Reachable config (get_best_price_ticks side s).1
    logged :
        (sink : Option (List SinkCall)) (s : PaperTradingSimulator)
        → Reachable config s
        → Reachable config (set_log_sink sink s)

  Covered-new_level :
      (side : Side) (px : ℤ) (ns : List ℕ) (s : PaperTradingSimulator)
      → Covered s
      → Covered (push_side side px (with_book side (H.assign px ns (book side s)) s))
  Covered-new_level buy px ns s c = (IsCovered-join_new false px ns s.bids s.bids_heap c.0, c.1)
  Covered-new_level sell px ns s c = (c.0, IsCovered-join_new true px ns s.asks s.asks_heap c.1)

  Covered-add_l2_row :
      (r : L2Row) (s : PaperTradingSimulator) → Covered s → Covered (add_l2_row r s)
  unfolding emit_diagnostic
  Covered-add_l2_row r s c =
      option_both Covered
        (acquire blank_order_node s.pool_config.historical_capacity s.order_pool).0 _ _ c
        (λ n. Covered-new_level r.side r.price (n ∷ []) _ c)

  Covered-l2_loop :
      (rs : List L2Row) (s : PaperTradingSimulator) → Covered s → Covered (l2_loop rs s).1
  unfolding l2_loop
  Covered-l2_loop [] s c = c
  Covered-l2_loop (r ∷ rs) s c =
      if_both (λ (x : Outcome). Covered x.1) (is_some (H.find r.price (book r.side s))) _ _ c
        (Covered-l2_loop rs (add_l2_row r s) (Covered-add_l2_row r s c))

  queue_at-assign : (px : ℤ) (q : List ℕ) (b : Book) → queue_at px (H.assign px q b) ≡ q
  queue_at-assign px q b = ground (arith, H.find-assign px px q b, ==ℤ_iff px px)

  -- `book[price]` does not make a level that counts.
  live-touch :
      (px q : ℤ) (b : Book) → is_live (H.assign px (queue_at px b) b) q ≡ true → is_live b q ≡ true
  live-touch px q b l = ground (arith, l, H.find-assign q px (queue_at px b) b, ==ℤ_iff px q)

  Covered-touch :
      (side : Side) (px : ℤ) (s : PaperTradingSimulator)
      → Covered s
      → Covered (with_book side (H.assign px (queue_at px (book side s)) (book side s)) s)
  Covered-touch side px s c = Covered-stable side _ s (λ q. live-touch px q (book side s)) c

  Covered-clear_state : (s : PaperTradingSimulator) → Covered (clear_state s)
  unfolding clear_state
  Covered-clear_state s = (IsCovered-empty false, IsCovered-empty true)

  Covered-place_l3_row :
      (r : L3Row) (n : ℕ) (s : PaperTradingSimulator) → Covered s → Covered (place_l3_row r n s)
  Covered-place_l3_row r n s c =
      Covered-join_book r.side r.price n
        (store_row n (row_node r.quantity r.order_id r.trader_id s.order_arrival_seq) s) c

  Covered-add_l3_row :
      (r : L3Row) (s : PaperTradingSimulator) → Covered s → Covered (add_l3_row r s)
  unfolding emit_diagnostic
  Covered-add_l3_row r s c =
      let s0 =
        with_book r.side (H.assign r.price (queue_at r.price (book r.side s)) (book r.side s)) s in
      let touched = Covered-touch r.side r.price s c in
      option_both Covered
        (acquire blank_order_node s0.pool_config.historical_capacity s0.order_pool).0 _ _ touched
        (λ n.
          Covered-place_l3_row r n
            (record s0 {
              order_pool =
                  (acquire blank_order_node s0.pool_config.historical_capacity s0.order_pool).1;
            })
            touched)

  Covered-l3_loop :
      (rs : List L3Row) (s : PaperTradingSimulator) → Covered s → Covered (l3_loop rs s).1
  unfolding l3_loop
  Covered-l3_loop [] s c = c
  Covered-l3_loop (r ∷ rs) s c =
      if_both (λ (x : Outcome). Covered x.1) (is_some (H.find r.order_id s.order_info)) _ _ c
        (Covered-l3_loop rs (add_l3_row r s) (Covered-add_l3_row r s c))

  Covered-get_best_price_ticks :
      (side : Side) (s : PaperTradingSimulator)
      → Covered s
      → Covered (get_best_price_ticks side s).1
  unfolding get_best_price_ticks
  Covered-get_best_price_ticks buy s c =
      ((best_opposite_price-IsBest false s.bids s.bids_heap c.0).1, c.1)
  Covered-get_best_price_ticks sell s c =
      (c.0, (best_opposite_price-IsBest true s.asks s.asks_heap c.1).1)

  -- In every state that the public operations reach, both heaps are in order and have the price of each
  -- level at which an order rests.
  Reachable-Covered :
      (config : OrderPoolConfig) (s : PaperTradingSimulator) → Reachable config s → Covered s
  unfolding init_from_l2_snapshot init_from_l3_snapshot set_log_sink
  Reachable-Covered config _ started = init-Covered config
  Reachable-Covered config _ (updated e s r) = update-Covered e s (Reachable-Covered config s r)
  Reachable-Covered config _ (loaded_l2 sides prices quantities s r) =
      if_both (λ (x : Outcome). Covered x.1) _ _ _
        (Covered-l2_loop (l2_rows sides prices quantities) (clear_state s) (Covered-clear_state s))
        (Covered-clear_state s)
  Reachable-Covered config _ (loaded_l3 sides prices quantities order_ids trader_ids s r) =
      if_both (λ (x : Outcome). Covered x.1) _ _ _
        (Covered-l3_loop (l3_rows sides prices quantities order_ids trader_ids) (clear_state s)
          (Covered-clear_state s))
        (Covered-clear_state s)
  Reachable-Covered config _ (queried side s r) =
      Covered-get_best_price_ticks side s (Reachable-Covered config s r)
  Reachable-Covered config _ (logged sink s r) = Reachable-Covered config s r

  -- In every state that the public operations reach, by any sequence of updates, snapshot loads and
  -- queries, `get_best_price_ticks` returns the best of all prices at which an order rests, or nothing
  -- if no order rests on the side.
  pub get_best_price_ticks-IsBest :
      (config : OrderPoolConfig) (s : PaperTradingSimulator) (side : Side)
      → Reachable config s
      → IsBest (not (is_buy side)) (book side s) (get_best_price_ticks side s).0
  unfolding get_best_price_ticks
  get_best_price_ticks-IsBest config s buy r =
      (best_opposite_price-IsBest false _ _ (Reachable-Covered config s r).0).0
  get_best_price_ticks-IsBest config s sell r =
      (best_opposite_price-IsBest true _ _ (Reachable-Covered config s r).1).0
