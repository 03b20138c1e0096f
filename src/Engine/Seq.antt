-- ===== src/Engine/Seq.antt =====
-- The sequence number, in all that concerns paper orders. The child has the other handlers, and
-- `update`.
pub mod Update
use lobsim.Base.{int_eq, HashMap, Bool, List, [], arith, refl, suc, zero, ℕ, ℤ, ◌∷◌, ◌≡◌}
use lobsim.Types.{NormalizedLobEvent, Side, buy, sell}
use lobsim.Engine.Add.{add_paper, rest_paper}
use lobsim.Engine.Cross.{take_paper_levels, view_level, view_levels}
use lobsim.Engine.PaperEdit.{cancel_order, delete_paper_order, reduce_paper_order, set_paper_order}
use lobsim.Engine.PaperLevel.{adjust_market_at, close_level, ensure_paper_level, remove_paper_order}
use lobsim.Engine.PaperTrade.{
  Walk, apply_paper_trade_at_level, passive_loop, passive_round, taking_loop, taking_round,
  trade_against_paper_level,
}
use lobsim.Engine.State.{
  PaperOrderInfo, PaperOrderLevel, PaperTradingSimulator, emit_diagnostic, with_paper_levels,
}

module _ ⦃H : HashMap⦄ where
  pub seq-with_paper_levels :
      (side : Side) (m : H.Map ℤ PaperOrderLevel) (s : PaperTradingSimulator)
      → (with_paper_levels side m s).seq ≡ s.seq
  seq-with_paper_levels buy m s = refl
  seq-with_paper_levels sell m s = refl

  seq-close_level :
      (side : Side) (px : ℤ) (level : PaperOrderLevel) (s : PaperTradingSimulator)
      → (close_level side px level s).seq ≡ s.seq
  seq-close_level side px level s = ground arith

  seq-remove_paper_order :
      (n : ℕ) (qty : ℤ) (level : PaperOrderLevel) (s : PaperTradingSimulator)
      → (remove_paper_order n qty (level, s)).1.seq ≡ s.seq
  unfolding remove_paper_order
  seq-remove_paper_order n qty level s = ground arith

  seq-taking_round :
      (side : Side) (px : ℤ) (e : NormalizedLobEvent) (n : ℕ) (w : Walk)
      → (taking_round side px e n w).sim.seq ≡ w.sim.seq
  unfolding taking_round remove_paper_order
  seq-taking_round side px e n w = ground arith

  seq-taking_loop :
      (side : Side) (px : ℤ) (e : NormalizedLobEvent) (ns : List ℕ) (w : Walk)
      → (taking_loop side px e ns w).sim.seq ≡ w.sim.seq
  unfolding taking_loop
  seq-taking_loop side px e [] w = refl
  seq-taking_loop side px e (n ∷ ns) w = ground (
    arith,
    seq-taking_round side px e n w,
    seq-taking_loop side px e ns (taking_round side px e n w),
  )

  seq-passive_round :
      (side : Side) (px : ℤ) (e : NormalizedLobEvent) (n : ℕ) (w : Walk)
      → (passive_round side px e n w).sim.seq ≡ w.sim.seq
  unfolding passive_round
  seq-passive_round side px e n w = grind (arith, seq-remove_paper_order)

  seq-passive_loop :
      (side : Side) (px : ℤ) (e : NormalizedLobEvent) (ns : List ℕ) (w : Walk)
      → (passive_loop side px e ns w).sim.seq ≡ w.sim.seq
  unfolding passive_loop
  seq-passive_loop side px e [] w = refl
  seq-passive_loop side px e (n ∷ ns) w = ground (
    arith,
    seq-passive_round side px e n w,
    seq-passive_loop side px e ns (passive_round side px e n w),
  )

  pub seq-apply_paper_trade_at_level :
      (side : Side) (px qty : ℤ) (e : NormalizedLobEvent) (s : PaperTradingSimulator)
      → (apply_paper_trade_at_level side px qty e s).seq ≡ s.seq
  unfolding apply_paper_trade_at_level
  seq-apply_paper_trade_at_level side px qty e s = grind (arith, seq-passive_loop, seq-close_level)

  pub seq-adjust_market_at :
      (side : Side) (px : ℤ) (k : ℕ) (delta : ℤ) (s : PaperTradingSimulator)
      → (adjust_market_at side px k delta s).seq ≡ s.seq
  seq-adjust_market_at side px k delta s = grind (arith, seq-with_paper_levels)

  seq-trade_against_paper_level :
      (side : Side) (px qty : ℤ) (e : NormalizedLobEvent) (s : PaperTradingSimulator)
      → (trade_against_paper_level side px qty e s).1.seq ≡ s.seq
  unfolding trade_against_paper_level
  seq-trade_against_paper_level side px qty e s = grind (arith, seq-taking_loop, seq-close_level)

  seq-view_level :
      (e : NormalizedLobEvent) (px : ℤ) (ns : List ℕ) (r : ℤ × PaperTradingSimulator)
      → (view_level e px ns r).1.seq ≡ r.1.seq
  unfolding view_level
  seq-view_level e px [] r = refl
  seq-view_level e px (n ∷ ns) r = grind (arith, seq-view_level e px ns)

  pub seq-view_levels :
      (fuel : ℕ) (limit : ℤ → Bool) (e : NormalizedLobEvent) (h : List ℤ)
      (r : ℤ × PaperTradingSimulator)
      → (view_levels fuel limit e h r).1.seq ≡ r.1.seq
  unfolding view_levels
  seq-view_levels zero limit e h r = refl
  seq-view_levels (suc fuel) limit e h r =
      grind (arith, seq-view_level, seq-view_levels fuel limit e)

  pub seq-take_paper_levels :
      (fuel : ℕ) (limit : ℤ → Bool) (e : NormalizedLobEvent) (r : ℤ × PaperTradingSimulator)
      → (take_paper_levels fuel limit e r).1.seq ≡ r.1.seq
  unfolding take_paper_levels
  seq-take_paper_levels zero limit e r = refl
  seq-take_paper_levels (suc fuel) limit e r =
      grind (arith, seq-trade_against_paper_level, seq-take_paper_levels fuel limit e)

  seq-ensure_paper_level :
      (side : Side) (px : ℤ) (s : PaperTradingSimulator)
      → (ensure_paper_level side px s).1.seq ≡ s.seq
  unfolding ensure_paper_level
  seq-ensure_paper_level side px s = grind (arith, seq-with_paper_levels)

  seq-rest_paper :
      (e : NormalizedLobEvent) (remaining : ℤ) (s : PaperTradingSimulator)
      → (rest_paper e remaining s).seq ≡ s.seq
  unfolding rest_paper emit_diagnostic
  seq-rest_paper e remaining s = grind (arith, seq-with_paper_levels, seq-ensure_paper_level)

  pub seq-add_paper :
      (e : NormalizedLobEvent) (s : PaperTradingSimulator) → (add_paper e s).seq ≡ s.seq
  seq-add_paper e s = grind (arith, seq-view_levels, seq-rest_paper)

  seq-cancel_order :
      (i : PaperOrderInfo) (qty : ℤ) (level : PaperOrderLevel) (s : PaperTradingSimulator)
      → (cancel_order i qty level s).seq ≡ s.seq
  seq-cancel_order i qty level s = grind (arith, seq-remove_paper_order, seq-close_level)

  pub seq-reduce_paper_order :
      (e : NormalizedLobEvent) (s : PaperTradingSimulator) → (reduce_paper_order e s).seq ≡ s.seq
  unfolding reduce_paper_order emit_diagnostic
  seq-reduce_paper_order e s = grind (arith, seq-cancel_order, seq-with_paper_levels)

  pub seq-set_paper_order :
      (id qty : ℤ) (s : PaperTradingSimulator) → (set_paper_order id qty s).seq ≡ s.seq
  unfolding set_paper_order
  seq-set_paper_order id qty s = grind (arith, seq-cancel_order, seq-with_paper_levels)

  pub seq-delete_paper_order :
      (e : NormalizedLobEvent) (s : PaperTradingSimulator) → (delete_paper_order e s).seq ≡ s.seq
  unfolding delete_paper_order emit_diagnostic
  seq-delete_paper_order e s = grind (arith, seq-cancel_order, seq-with_paper_levels)
