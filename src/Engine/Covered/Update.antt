-- ===== src/Engine/Covered/Update.antt =====
-- The heaps against the books, under `update` and histories of events.
use lobsim.Base.{int_eq, HashMap, List, [], false, if_both, ltb_ℤ, pos, true, ◌∷◌}
use lobsim.Types.{
  add, delete, set, match, on_event_apply, aggressive_trade, subtract, invalid, NormalizedLobEvent,
  UpdateType, is_strategy,
}
use lobsim.Engine.Add.{add_paper, is_known, on_add, on_aggressive_trade}
use lobsim.Engine.Cancel.{on_delete, on_match, on_set, on_subtract}
use lobsim.Engine.Covered.{Covered, Covered-add_market, Covered-stable, Covers}
use lobsim.Engine.Isolation.{
  market-add_paper, market-delete_paper_order, market-on_aggressive_trade,
  market-reduce_paper_order, market-set_paper_order,
}
use lobsim.Engine.PaperEdit.{delete_paper_order, reduce_paper_order, set_paper_order}
use lobsim.Engine.Stable.Cancel.{
  Holds-delete_order, Holds-emit_if, Holds-on_partial_order_cancel, Holds-set_order,
}
use lobsim.Engine.Stable.Shrink.{Holds-of_market}
use lobsim.Engine.State.{PaperTradingSimulator, emit}
use lobsim.Engine.Update.{apply_record, dispatch, replay, update}

module _ ⦃H : HashMap⦄ where
  Covered-on_add :
      (e : NormalizedLobEvent) (s : PaperTradingSimulator) → Covered s → Covered (on_add e s)
  unfolding on_add
  Covered-on_add e s c =
      if_both Covered (ltb_ℤ e.quantity_lots (pos 0)) _ _
        (Holds-emit_if Covers Covered-stable true e _ _ s c)
        (if_both Covered (is_known e.order_id s) _ _
          (Holds-emit_if Covers Covered-stable true e _ _ s c)
          (if_both Covered (is_strategy e.update_source) _ _
            (Holds-of_market Covers Covered-stable (add_paper e s) s (market-add_paper e s) c)
            (Covered-add_market e s c)))

  Covered-dispatch :
      (t : UpdateType) (e : NormalizedLobEvent) (s : PaperTradingSimulator)
      → Covered s
      → Covered (dispatch t e s)
  unfolding dispatch on_delete on_set on_subtract on_match
  Covered-dispatch add e s c = Covered-on_add e s c
  Covered-dispatch aggressive_trade e s c =
      Holds-of_market Covers Covered-stable (on_aggressive_trade e s) s
        (market-on_aggressive_trade e s) c
  Covered-dispatch delete e s c =
      if_both Covered (is_strategy e.update_source) _ _
        (Holds-of_market Covers Covered-stable (delete_paper_order e s) s
          (market-delete_paper_order e s) c)
        (Holds-delete_order Covers Covered-stable e s c)
  Covered-dispatch subtract e s c =
      if_both Covered (is_strategy e.update_source) _ _
        (Holds-of_market Covers Covered-stable (reduce_paper_order e s) s
          (market-reduce_paper_order e s) c)
        (Holds-on_partial_order_cancel Covers Covered-stable false e s c)
  Covered-dispatch match e s c = Holds-on_partial_order_cancel Covers Covered-stable true e s c
  Covered-dispatch set e s c =
      if_both Covered (is_strategy e.update_source) _ _
        (Holds-of_market Covers Covered-stable (set_paper_order e.order_id e.quantity_lots s) s
          (market-set_paper_order e.order_id e.quantity_lots s) c)
        (Holds-set_order Covers Covered-stable e s c)
  Covered-dispatch invalid e s c = Holds-emit_if Covers Covered-stable true e _ _ s c

  -- Every event keeps each heap in order and covering its book.
  pub update-Covered :
      (e : NormalizedLobEvent) (s : PaperTradingSimulator) → Covered s → Covered (update e s)
  unfolding update
  update-Covered e s c =
      Covered-dispatch e.update_type e (emit (on_event_apply (apply_record s.seq e)) s) c

  pub replay-Covered :
      (es : List NormalizedLobEvent) (s : PaperTradingSimulator) → Covered s → Covered (replay es s)
  unfolding replay
  replay-Covered [] s c = c
  replay-Covered (e ∷ es) s c = replay-Covered es (update e s) (update-Covered e s c)
