-- ===== src/Engine/Isolation.antt =====
-- The market's part of the state, and what the strategy's events do to it.
use lobsim.Base.{ℕ, ℤ, List, [], ◌∷◌, ◌≡◌, refl, HashMap, int_eq, arith, Bool, suc, zero, true, ◌≢◌}
use lobsim.Types.{
  add, delete, set, match, on_event_apply, aggressive_trade, subtract, invalid, Side, buy, sell,
  NormalizedLobEvent, is_strategy, UpdateType,
}
use lobsim.Pool.{NodePool}
use lobsim.Engine.State.{
  PaperTradingSimulator, PaperOrderLevel, Book, OrderInfo, OrderNode, with_paper_levels,
  PaperOrderInfo, emit_diagnostic, emit,
}
use lobsim.Engine.PaperLevel.{remove_paper_order, close_level, ensure_paper_level, adjust_market_at}
use lobsim.Engine.Cross.{view_level, view_levels, take_paper_levels}
use lobsim.Engine.PaperTrade.{
  Walk, taking_round, taking_loop, trade_against_paper_level, apply_paper_trade_at_level,
  passive_loop, passive_round,
}
use lobsim.Engine.Add.{add_paper, on_add, on_aggressive_trade, rest_paper}
use lobsim.Engine.PaperEdit.{cancel_order, delete_paper_order, reduce_paper_order, set_paper_order}
use lobsim.Engine.Cancel.{on_delete, on_set, on_subtract}
use lobsim.Engine.Update.{apply_record, dispatch, update}

module _ ⦃H : HashMap⦄ where
  pub record Market : Type 0 where
    pub bids : Book
    pub asks : Book
    pub bids_heap : List ℤ
    pub asks_heap : List ℤ
    pub order_info : H.Map ℤ OrderInfo
    pub order_pool : NodePool OrderNode

  abbrev pub market : PaperTradingSimulator → Market
  market s = record {
    bids = s.bids;
    asks = s.asks;
    bids_heap = s.bids_heap;
    asks_heap = s.asks_heap;
    order_info = s.order_info;
    order_pool = s.order_pool;
  }

  market-with_paper_levels :
      (side : Side) (m : H.Map ℤ PaperOrderLevel) (s : PaperTradingSimulator)
      → market (with_paper_levels side m s) ≡ market s
  market-with_paper_levels buy m s = refl
  market-with_paper_levels sell m s = refl

  market-close_level :
      (side : Side) (px : ℤ) (level : PaperOrderLevel) (s : PaperTradingSimulator)
      → market (close_level side px level s) ≡ market s
  market-close_level side px level s = ground arith

  market-remove_paper_order :
      (n : ℕ) (qty : ℤ) (level : PaperOrderLevel) (s : PaperTradingSimulator)
      → market (remove_paper_order n qty (level, s)).1 ≡ market s
  unfolding remove_paper_order
  market-remove_paper_order n qty level s = ground arith

  market-taking_round :
      (side : Side) (px : ℤ) (e : NormalizedLobEvent) (n : ℕ) (w : Walk)
      → market (taking_round side px e n w).sim ≡ market w.sim
  unfolding taking_round remove_paper_order
  market-taking_round side px e n w = ground arith

  market-taking_loop :
      (side : Side) (px : ℤ) (e : NormalizedLobEvent) (ns : List ℕ) (w : Walk)
      → market (taking_loop side px e ns w).sim ≡ market w.sim
  unfolding taking_loop
  market-taking_loop side px e [] w = refl
  market-taking_loop side px e (n ∷ ns) w = ground (
    arith,
    market-taking_round side px e n w,
    market-taking_loop side px e ns (taking_round side px e n w),
  )

  market-passive_round :
      (side : Side) (px : ℤ) (e : NormalizedLobEvent) (n : ℕ) (w : Walk)
      → market (passive_round side px e n w).sim ≡ market w.sim
  unfolding passive_round
  market-passive_round side px e n w = grind (arith, market-remove_paper_order)

  market-passive_loop :
      (side : Side) (px : ℤ) (e : NormalizedLobEvent) (ns : List ℕ) (w : Walk)
      → market (passive_loop side px e ns w).sim ≡ market w.sim
  unfolding passive_loop
  market-passive_loop side px e [] w = refl
  market-passive_loop side px e (n ∷ ns) w = ground (
    arith,
    market-passive_round side px e n w,
    market-passive_loop side px e ns (passive_round side px e n w),
  )

  pub market-apply_paper_trade_at_level :
      (side : Side) (px qty : ℤ) (e : NormalizedLobEvent) (s : PaperTradingSimulator)
      → market (apply_paper_trade_at_level side px qty e s) ≡ market s
  unfolding apply_paper_trade_at_level
  market-apply_paper_trade_at_level side px qty e s =
      grind (arith, market-passive_loop, market-close_level)

  pub market-adjust_market_at :
      (side : Side) (px : ℤ) (k : ℕ) (delta : ℤ) (s : PaperTradingSimulator)
      → market (adjust_market_at side px k delta s) ≡ market s
  market-adjust_market_at side px k delta s = grind (arith, market-with_paper_levels)

  market-trade_against_paper_level :
      (side : Side) (px qty : ℤ) (e : NormalizedLobEvent) (s : PaperTradingSimulator)
      → market (trade_against_paper_level side px qty e s).1 ≡ market s
  unfolding trade_against_paper_level
  market-trade_against_paper_level side px qty e s =
      grind (arith, market-taking_loop, market-close_level)

  market-view_level :
      (e : NormalizedLobEvent) (px : ℤ) (ns : List ℕ) (r : ℤ × PaperTradingSimulator)
      → market (view_level e px ns r).1 ≡ market r.1
  unfolding view_level
  market-view_level e px [] r = refl
  market-view_level e px (n ∷ ns) r = grind (arith, market-view_level e px ns)

  market-view_levels :
      (fuel : ℕ) (limit : ℤ → Bool) (e : NormalizedLobEvent) (h : List ℤ)
      (r : ℤ × PaperTradingSimulator)
      → market (view_levels fuel limit e h r).1 ≡ market r.1
  unfolding view_levels
  market-view_levels zero limit e h r = refl
  market-view_levels (suc fuel) limit e h r =
      grind (arith, market-view_level, market-view_levels fuel limit e)

  pub market-take_paper_levels :
      (fuel : ℕ) (limit : ℤ → Bool) (e : NormalizedLobEvent) (r : ℤ × PaperTradingSimulator)
      → market (take_paper_levels fuel limit e r).1 ≡ market r.1
  unfolding take_paper_levels
  market-take_paper_levels zero limit e r = refl
  market-take_paper_levels (suc fuel) limit e r =
      grind (arith, market-trade_against_paper_level, market-take_paper_levels fuel limit e)

  market-ensure_paper_level :
      (side : Side) (px : ℤ) (s : PaperTradingSimulator)
      → market (ensure_paper_level side px s).1 ≡ market s
  unfolding ensure_paper_level
  market-ensure_paper_level side px s = grind (arith, market-with_paper_levels)

  market-rest_paper :
      (e : NormalizedLobEvent) (remaining : ℤ) (s : PaperTradingSimulator)
      → market (rest_paper e remaining s) ≡ market s
  unfolding rest_paper emit_diagnostic
  market-rest_paper e remaining s =
      grind (arith, market-with_paper_levels, market-ensure_paper_level)

  pub market-add_paper :
      (e : NormalizedLobEvent) (s : PaperTradingSimulator) → market (add_paper e s) ≡ market s
  market-add_paper e s = grind (arith, market-view_levels, market-rest_paper)

  market-on_add :
      (e : NormalizedLobEvent) (s : PaperTradingSimulator)
      → is_strategy e.update_source ≡ true
      → market (on_add e s) ≡ market s
  unfolding on_add emit_diagnostic
  market-on_add e s h = ground (arith, market-add_paper e s)

  pub market-on_aggressive_trade :
      (e : NormalizedLobEvent) (s : PaperTradingSimulator)
      → market (on_aggressive_trade e s) ≡ market s
  unfolding on_aggressive_trade emit_diagnostic
  market-on_aggressive_trade e s = grind (arith, market-view_levels, market-take_paper_levels)

  market-cancel_order :
      (i : PaperOrderInfo) (qty : ℤ) (level : PaperOrderLevel) (s : PaperTradingSimulator)
      → market (cancel_order i qty level s) ≡ market s
  market-cancel_order i qty level s = grind (arith, market-remove_paper_order, market-close_level)

  pub market-reduce_paper_order :
      (e : NormalizedLobEvent) (s : PaperTradingSimulator)
      → market (reduce_paper_order e s) ≡ market s
  unfolding reduce_paper_order emit_diagnostic
  market-reduce_paper_order e s = grind (arith, market-cancel_order, market-with_paper_levels)

  pub market-set_paper_order :
      (id qty : ℤ) (s : PaperTradingSimulator) → market (set_paper_order id qty s) ≡ market s
  unfolding set_paper_order
  market-set_paper_order id qty s = grind (arith, market-cancel_order, market-with_paper_levels)

  pub market-delete_paper_order :
      (e : NormalizedLobEvent) (s : PaperTradingSimulator)
      → market (delete_paper_order e s) ≡ market s
  unfolding delete_paper_order emit_diagnostic
  market-delete_paper_order e s = grind (arith, market-cancel_order, market-with_paper_levels)

  market-dispatch :
      (t : UpdateType) (e : NormalizedLobEvent) (s : PaperTradingSimulator)
      → is_strategy e.update_source ≡ true
      → t ≢ match
      → market (dispatch t e s) ≡ market s
  unfolding dispatch on_delete on_set on_subtract emit_diagnostic
  market-dispatch add e s h ne = market-on_add e s h
  market-dispatch aggressive_trade e s h ne = market-on_aggressive_trade e s
  market-dispatch delete e s h ne = ground (arith, market-delete_paper_order e s)
  market-dispatch subtract e s h ne = ground (arith, market-reduce_paper_order e s)
  market-dispatch match e s h ne = absurd (ne refl)
  market-dispatch set e s h ne = ground (arith, market-set_paper_order e.order_id e.quantity_lots s)
  market-dispatch invalid e s h ne = refl

  -- An event of the strategy other than a MATCH leaves the historical book as it was: the two books,
  -- their heaps, the index of orders, and every order in the pool.
  pub market-update :
      (e : NormalizedLobEvent) (s : PaperTradingSimulator)
      → is_strategy e.update_source ≡ true
      → e.update_type ≢ match
      → market (update e s) ≡ market s
  unfolding update
  market-update e s h ne =
      market-dispatch e.update_type e (emit (on_event_apply (apply_record s.seq e)) s) h ne
