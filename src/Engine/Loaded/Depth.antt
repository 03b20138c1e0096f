-- ===== src/Engine/Loaded/Depth.antt =====
-- The load of an L2 snapshot as a whole, and what `depth_at` says after it.
use lobsim.Pool.{NodePool, reset}
use lobsim.Pool.Room.{reset-IsOpen}
use lobsim.Base.{
  zero_+ℤ, ◌≤◌, ==ℕ_iff, ℤ, pos, Option, none, some, is_some, List, [], ◌∷◌, ◌++◌, length,
  append-nil, append_assoc, HashMap, int_eq, ◌≡◌, refl, ap, sym, subst, arith,
}
use lobsim.Types.{Side, buy, sell}
use lobsim.Engine.State.{
  PaperTradingSimulator, OrderNode, OrderPriorityQueue, blank_order_node, book,
}
use lobsim.Engine.Init.{L2Row, add_l2_row, l2_loop, l2_rows, init_from_l2_snapshot, clear_state}
use lobsim.Engine.Query.{depth_at, accumulate}
use lobsim.Engine.Loaded.{row_depth, AllNew, IsLevelOf, IsLoaded, room_in, IsLoaded-add_l2_row}

module _ ⦃H : HashMap⦄ where
  is_some-IsLevelOf :
      (p : NodePool OrderNode) (q : Option OrderPriorityQueue) (d : Option ℤ)
      → IsLevelOf p q d
      → is_some q ≡ is_some d
  is_some-IsLevelOf p none none h = refl
  is_some-IsLevelOf p none (some d) h = h
  is_some-IsLevelOf p (some q) none h = sym h
  is_some-IsLevelOf p (some q) (some d) h = refl

  -- The test of the loop for a price that is there.
  is_some-find :
      (rows : List L2Row) (s : PaperTradingSimulator) (side : Side) (px : ℤ)
      → IsLoaded rows s
      → is_some (H.find px (book side s)) ≡ is_some (row_depth side px rows)
  is_some-find rows s side px h = is_some-IsLevelOf s.order_pool _ _ (h.levels side px)

  -- The loop over new rows goes on to the rows behind them.
  l2_loop-new :
      (before rs rest : List L2Row) (s : PaperTradingSimulator)
      → AllNew before rs
      → length rs ≤ room_in s
      → IsLoaded before s
      → (t : PaperTradingSimulator) × IsLoaded (before ++ rs) t
        × (l2_loop (rs ++ rest) s ≡ l2_loop rest t)
  unfolding l2_loop
  l2_loop-new before [] rest s new space h = (s, rw (append-nil before) h, refl)
  l2_loop-new before (r ∷ rs) rest s new space h =
      let step = IsLoaded-add_l2_row before r s new.0 (omega (arith, space)) h in
      let (t, loaded, same) =
        l2_loop-new (before ++ r ∷ []) rs rest (add_l2_row r s) new.1 (omega (arith, space, step.1))
          step.0 in
      (
        t,
        subst (λ x. IsLoaded x t) (append_assoc before (r ∷ []) rs) loaded,
        rw (is_some-find before s r.side r.price h, new.0) same,
      )

  accumulate-IsLevelOf :
      (s : PaperTradingSimulator) (q : Option OrderPriorityQueue) (d : Option ℤ)
      → IsLevelOf s.order_pool q d
      → elim q [ none ↦ none | some queue ↦ some (accumulate s (pos 0) queue) ] ≡ d
  unfolding accumulate
  accumulate-IsLevelOf s none none h = refl
  accumulate-IsLevelOf s none (some d) h = ground (arith, h)
  accumulate-IsLevelOf s (some q) none h = ground (arith, h)
  accumulate-IsLevelOf s (some q) (some d) (n, e, own, lots) = rw (e, lots) (ap some (zero_+ℤ d))

  depth_at-IsLoaded :
      (rows : List L2Row) (s : PaperTradingSimulator) (side : Side) (px : ℤ)
      → IsLoaded rows s
      → depth_at side px s ≡ row_depth side px rows
  unfolding depth_at
  depth_at-IsLoaded rows s side px h = accumulate-IsLevelOf s _ _ (h.levels side px)

  no_level :
      (side : Side) (px : ℤ) (s : PaperTradingSimulator) (p : NodePool OrderNode)
      → IsLevelOf p (H.find px (book side (clear_state s))) none
  unfolding clear_state
  no_level buy px s p = rw (H.find-empty {V = OrderPriorityQueue} px) tt
  no_level sell px s p = rw (H.find-empty {V = OrderPriorityQueue} px) tt

  IsLoaded-clear_state :
      (s : PaperTradingSimulator)
      → IsLoaded [] (clear_state s) × (s.pool_config.historical_capacity ≤ room_in (clear_state s))
  unfolding clear_state
  IsLoaded-clear_state s =
      let fresh = reset-IsOpen blank_order_node s.pool_config.historical_capacity s.order_pool in
      (
        record {
          levels = λ side px. no_level side px s (reset s.order_pool);
          free_nodes = fresh.0;
        },
        fresh.1,
      )

  -- What a snapshot load does with new rows and what stands behind them.
  init_from_l2_snapshot-new :
      (sides : List Side) (prices quantities : List ℤ) (rs rest : List L2Row)
      (s : PaperTradingSimulator)
      → length sides ≡ length prices
      → length sides ≡ length quantities
      → l2_rows sides prices quantities ≡ rs ++ rest
      → AllNew [] rs
      → length rs ≤ s.pool_config.historical_capacity
      → (t : PaperTradingSimulator) × IsLoaded rs t
        × (init_from_l2_snapshot sides prices quantities s ≡ l2_loop rest t)
  unfolding init_from_l2_snapshot
  init_from_l2_snapshot-new sides prices quantities rs rest s many_prices many_quantities e new
        space =
      let start = IsLoaded-clear_state s in
      let (t, loaded, same) =
        l2_loop-new [] rs rest (clear_state s) new (omega (arith, space, start.1)) start.0 in
      (
        t,
        loaded,
        rw
            (
              (==ℕ_iff (length sides) (length prices)).1 many_prices,
              (==ℕ_iff (length sides) (length quantities)).1 many_quantities,
              e,
            )
            same,
      )

  -- A snapshot of prices and quantities can be read back. Where the three arrays have one length, no
  -- price stands twice on a side and the pool may grow to as many orders as there are rows, the load
  -- returns, whatever state it starts from. After it `depth_at` gives for each row's side and price the
  -- row's quantity, and for any other side and price that there is no such level.
  pub init_from_l2_snapshot-depth_at :
      (sides : List Side) (prices quantities : List ℤ) (s : PaperTradingSimulator)
      → length sides ≡ length prices
      → length sides ≡ length quantities
      → AllNew [] (l2_rows sides prices quantities)
      → length (l2_rows sides prices quantities) ≤ s.pool_config.historical_capacity
      → let r = init_from_l2_snapshot sides prices quantities s in
        (r.0 ≡ none)
        × ((side : Side) (px : ℤ)
            → depth_at side px r.1 ≡ row_depth side px (l2_rows sides prices quantities))
  unfolding l2_loop
  init_from_l2_snapshot-depth_at sides prices quantities s many_prices many_quantities new space =
      let rows = l2_rows sides prices quantities in
      let (t, loaded, same) =
        init_from_l2_snapshot-new sides prices quantities rows [] s many_prices many_quantities
          (sym (append-nil rows)) new space in
      rw same (refl, λ side px. depth_at-IsLoaded rows t side px loaded)
