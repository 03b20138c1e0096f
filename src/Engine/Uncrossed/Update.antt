-- ===== src/Engine/Uncrossed/Update.antt =====
-- The bids against the asks, under `update` and histories of events.
use lobsim.Types.{
  add, delete, set, match, on_event_apply, aggressive_trade, subtract, invalid, NormalizedLobEvent,
  UpdateType, is_strategy,
}
use lobsim.Base.{
  int_eq, HashMap, List, [], arith, false, if_both, ltb_ℤ, pos, true, ℕ, ℤ, ◌<ℤ◌, ◌∷◌, ◌≡◌,
}
use lobsim.Engine.Add.{add_paper, is_known, on_add, on_aggressive_trade}
use lobsim.Engine.Books.{books}
use lobsim.Engine.Cancel.{on_delete, on_match, on_set, on_subtract}
use lobsim.Engine.Covered.{Covered, init-Covered}
use lobsim.Engine.Covered.Update.{update-Covered}
use lobsim.Engine.Isolation.{
  market-add_paper, market-delete_paper_order, market-on_aggressive_trade,
  market-reduce_paper_order, market-set_paper_order,
}
use lobsim.Engine.PaperEdit.{delete_paper_order, reduce_paper_order, set_paper_order}
use lobsim.Engine.Prices.{is_live}
use lobsim.Engine.Stable.Cancel.{
  Holds-delete_order, Holds-emit_if, Holds-on_partial_order_cancel, Holds-set_order,
}
use lobsim.Engine.Stable.Shrink.{Holds-of_market}
use lobsim.Engine.State.{OrderPoolConfig, PaperTradingSimulator, emit, init}
use lobsim.Engine.Uncrossed.{Uncrossed, Uncrossed-add_market, Uncrossed-stable}
use lobsim.Engine.Update.{apply_record, dispatch, replay, update}

module _ ⦃H : HashMap⦄ where
  Uncrossed-on_add :
      (e : NormalizedLobEvent) (s : PaperTradingSimulator)
      → Covered s
      → Uncrossed (books s)
      → Uncrossed (books (on_add e s))
  unfolding on_add
  Uncrossed-on_add e s c u =
      if_both (λ (x : PaperTradingSimulator). Uncrossed (books x)) (ltb_ℤ e.quantity_lots (pos 0)) _
        _ (Holds-emit_if Uncrossed Uncrossed-stable true e _ _ s u)
        (if_both (λ (x : PaperTradingSimulator). Uncrossed (books x)) (is_known e.order_id s) _ _
          (Holds-emit_if Uncrossed Uncrossed-stable true e _ _ s u)
          (if_both (λ (x : PaperTradingSimulator). Uncrossed (books x))
            (is_strategy e.update_source) _ _
            (Holds-of_market Uncrossed Uncrossed-stable (add_paper e s) s (market-add_paper e s) u)
            (Uncrossed-add_market e s c u)))

  Uncrossed-dispatch :
      (t : UpdateType) (e : NormalizedLobEvent) (s : PaperTradingSimulator)
      → Covered s
      → Uncrossed (books s)
      → Uncrossed (books (dispatch t e s))
  unfolding dispatch on_delete on_set on_subtract on_match
  Uncrossed-dispatch add e s c u = Uncrossed-on_add e s c u
  Uncrossed-dispatch aggressive_trade e s c u =
      Holds-of_market Uncrossed Uncrossed-stable (on_aggressive_trade e s) s
        (market-on_aggressive_trade e s) u
  Uncrossed-dispatch delete e s c u =
      if_both (λ (x : PaperTradingSimulator). Uncrossed (books x)) (is_strategy e.update_source) _ _
        (Holds-of_market Uncrossed Uncrossed-stable (delete_paper_order e s) s
          (market-delete_paper_order e s) u)
        (Holds-delete_order Uncrossed Uncrossed-stable e s u)
  Uncrossed-dispatch subtract e s c u =
      if_both (λ (x : PaperTradingSimulator). Uncrossed (books x)) (is_strategy e.update_source) _ _
        (Holds-of_market Uncrossed Uncrossed-stable (reduce_paper_order e s) s
          (market-reduce_paper_order e s) u)
        (Holds-on_partial_order_cancel Uncrossed Uncrossed-stable false e s u)
  Uncrossed-dispatch match e s c u =
      Holds-on_partial_order_cancel Uncrossed Uncrossed-stable true e s u
  Uncrossed-dispatch set e s c u =
      if_both (λ (x : PaperTradingSimulator). Uncrossed (books x)) (is_strategy e.update_source) _ _
        (Holds-of_market Uncrossed Uncrossed-stable (set_paper_order e.order_id e.quantity_lots s) s
          (market-set_paper_order e.order_id e.quantity_lots s) u)
        (Holds-set_order Uncrossed Uncrossed-stable e s u)
  Uncrossed-dispatch invalid e s c u = Holds-emit_if Uncrossed Uncrossed-stable true e _ _ s u

  -- Every event, of whatever type and source, leaves each resting bid below each resting ask, if this
  -- held before and the heaps cover the books.
  update-Uncrossed :
      (e : NormalizedLobEvent) (s : PaperTradingSimulator)
      → Covered s
      → Uncrossed (books s)
      → Uncrossed (books (update e s))
  unfolding update
  update-Uncrossed e s c u =
      Uncrossed-dispatch e.update_type e (emit (on_event_apply (apply_record s.seq e)) s) c u

  replay-Uncrossed_from :
      (es : List NormalizedLobEvent) (s : PaperTradingSimulator)
      → Covered s
      → Uncrossed (books s)
      → Uncrossed (books (replay es s))
  unfolding replay
  replay-Uncrossed_from [] s c u = u
  replay-Uncrossed_from (e ∷ es) s c u =
      replay-Uncrossed_from es (update e s) (update-Covered e s c) (update-Uncrossed e s c u)

  init-Uncrossed : (config : OrderPoolConfig) → Uncrossed (books (init config))
  unfolding init
  init-Uncrossed config p q lp lq = ground (arith, lp, H.find-empty {V = List ℕ} p)

  -- After any history of events from the empty simulator, each price at which a bid of the market rests is
  -- below each price at which an ask of the market rests.
  pub replay-Uncrossed :
      (config : OrderPoolConfig) (es : List NormalizedLobEvent) (p q : ℤ)
      → is_live (replay es (init config)).bids p ≡ true
      → is_live (replay es (init config)).asks q ≡ true
      → p <ℤ q
  replay-Uncrossed config es p q lp lq =
      replay-Uncrossed_from es (init config) (init-Covered config) (init-Uncrossed config) p q lp lq
