-- ===== src/Engine/Seq/Update.antt =====
-- The sequence number, in the handlers of the market's events and in `update`.
use lobsim.Base.{
  int_eq, HashMap, Bool, List, [], arith, false, if_both, if◌then◌else◌, leb_ℤ, ltb_ℤ, min_ℤ, not,
  option_both, pos, refl, suc, true, zero, ℕ, ℤ, ◌&&◌, ◌-ℤ◌, ◌==ℤ◌, ◌∙◌, ◌∷◌, ◌≡◌,
}
use lobsim.Types.{
  add, delete, set, match, aggressive_trade, subtract, invalid, DiagnosticRecordCode,
  DiagnosticRecordSeverity, NormalizedLobEvent, Side, SinkCall, UpdateType, buy, error, is_strategy,
  next_u64, on_event_apply, on_fill, paper_order_invokes_passive_match_instead_of_aggressive_trade,
  requested_order_reduce_with_volume_larger_than_available_for_order_id, sell, warning,
}
use lobsim.Engine.Add.{add_market, aggress, on_add, on_aggressive_trade, rest_market}
use lobsim.Engine.Cancel.{
  check_stored, delete_order, drop_order, match_fill, on_delete, on_match, on_partial_order_cancel,
  on_set, on_subtract, pass_on, reduce_body, reduce_order_found, remove_order, set_order, set_qty,
}
use lobsim.Engine.Cross.{Matching, adjust_all, match_level, match_levels, match_queue}
use lobsim.Engine.PaperLevel.{put_level}
use lobsim.Engine.Seq.{
  seq-add_paper, seq-adjust_market_at, seq-apply_paper_trade_at_level, seq-delete_paper_order,
  seq-reduce_paper_order, seq-set_paper_order, seq-take_paper_levels, seq-view_levels,
  seq-with_paper_levels,
}
use lobsim.Engine.State.{
  Book, OrderInfo, PaperOrderLevel, PaperTradingSimulator, book, emit, emit_diagnostic, order_node,
  with_book, with_heap,
}
use lobsim.Engine.Update.{apply_record, dispatch, update}

module _ ⦃H : HashMap⦄ where
  seq-match_queue :
      (e : NormalizedLobEvent) (px : ℤ) (ns : List ℕ) (m : Matching)
      → (match_queue e px ns m).sim.seq ≡ m.sim.seq
  unfolding match_queue
  seq-match_queue e px [] m = refl
  seq-match_queue e px (n ∷ ns) m = grind (arith, seq-match_queue e px ns)

  seq-adjust_all :
      (side : Side) (px : ℤ) (ds : List (ℕ × ℤ)) (s : PaperTradingSimulator)
      → (adjust_all side px ds s).seq ≡ s.seq
  unfolding adjust_all
  seq-adjust_all side px [] s = refl
  seq-adjust_all side px ((k, delta) ∷ ds) s =
      seq-adjust_market_at side px k delta (adjust_all side px ds s) ∙ seq-adjust_all side px ds s

  seq-with_book :
      (side : Side) (b : Book) (s : PaperTradingSimulator) → (with_book side b s).seq ≡ s.seq
  seq-with_book buy b s = refl
  seq-with_book sell b s = refl

  seq-with_heap :
      (side : Side) (h : List ℤ) (s : PaperTradingSimulator) → (with_heap side h s).seq ≡ s.seq
  seq-with_heap buy h s = refl
  seq-with_heap sell h s = refl

  seq-match_level :
      (e : NormalizedLobEvent) (px : ℤ) (ns : List ℕ) (r : ℤ × PaperTradingSimulator)
      → (match_level e px ns r).1.seq ≡ r.1.seq
  unfolding match_level
  seq-match_level e px ns r =
      grind (arith, seq-with_book, seq-adjust_all, seq-apply_paper_trade_at_level, seq-match_queue)

  seq-match_levels :
      (fuel : ℕ) (e : NormalizedLobEvent) (r : ℤ × PaperTradingSimulator)
      → (match_levels fuel e r).1.seq ≡ r.1.seq
  unfolding match_levels
  seq-match_levels zero e r = refl
  seq-match_levels (suc fuel) e r =
      grind (arith, seq-match_level, seq-with_heap, seq-match_levels fuel e)

  seq-put_level :
      (side : Side) (px : ℤ) (level : PaperOrderLevel) (s : PaperTradingSimulator)
      → (put_level side px level s).seq ≡ s.seq
  seq-put_level side px level s = grind (arith, seq-with_paper_levels)

  seq-rest_market :
      (e : NormalizedLobEvent) (remaining : ℤ) (s : PaperTradingSimulator)
      → (rest_market e remaining s).seq ≡ s.seq
  unfolding rest_market emit_diagnostic
  seq-rest_market e remaining s = grind (arith, seq-with_book, seq-with_heap, seq-put_level)

  seq-add_market :
      (e : NormalizedLobEvent) (s : PaperTradingSimulator) → (add_market e s).seq ≡ s.seq
  seq-add_market e s =
      grind (arith, seq-rest_market, seq-take_paper_levels, seq-match_levels, seq-with_heap)

  seq-on_add : (e : NormalizedLobEvent) (s : PaperTradingSimulator) → (on_add e s).seq ≡ s.seq
  unfolding on_add emit_diagnostic
  seq-on_add e s = ground (arith, seq-add_paper e s, seq-add_market e s)

  seq-check_stored :
      (e : NormalizedLobEvent) (i : OrderInfo) (c d : DiagnosticRecordCode)
      (s : PaperTradingSimulator)
      → (check_stored e i c d s).seq ≡ s.seq
  unfolding emit_diagnostic
  seq-check_stored e i c d s = ground arith

  seq-delete_order :
      (e : NormalizedLobEvent) (s : PaperTradingSimulator) → (delete_order e s).seq ≡ s.seq
  unfolding delete_order emit_diagnostic
  seq-delete_order e s = grind (arith, seq-with_book, seq-adjust_market_at)

  seq-set_order : (e : NormalizedLobEvent) (s : PaperTradingSimulator) → (set_order e s).seq ≡ s.seq
  unfolding set_order emit_diagnostic
  seq-set_order e s = grind (arith, seq-with_book, seq-adjust_market_at)

  seq-pass_on :
      (is_trade : Bool) (e : NormalizedLobEvent) (i : OrderInfo) (k : ℕ) (take : ℤ)
      (s : PaperTradingSimulator)
      → (pass_on is_trade e i k take s).seq ≡ s.seq
  seq-pass_on is_trade e i k take s =
      grind (arith, seq-adjust_market_at, seq-apply_paper_trade_at_level)

  seq-emit_if :
      (b : Bool) (k : SinkCall) (s : PaperTradingSimulator)
      → (if b then emit k s else s).seq ≡ s.seq
  seq-emit_if true k s = refl
  seq-emit_if false k s = refl

  seq-diagnostic_if :
      (b : Bool) (e : NormalizedLobEvent) (k : DiagnosticRecordCode) (v : DiagnosticRecordSeverity)
      (s : PaperTradingSimulator)
      → (if b then emit_diagnostic e k v s else s).seq ≡ s.seq
  unfolding emit_diagnostic
  seq-diagnostic_if true e k v s = refl
  seq-diagnostic_if false e k v s = refl

  -- The order goes, or keeps what is left of it.
  seq-leave :
      (b : Bool) (id : ℤ) (i : OrderInfo) (n : ℕ) (queue : List ℕ) (qty : ℤ)
      (s : PaperTradingSimulator)
      → (if b then remove_order id i n queue s else set_qty n qty s).seq ≡ s.seq
  seq-leave true id i n queue qty s = seq-with_book i.side _ (drop_order id n s)
  seq-leave false id i n queue qty s = refl

  seq-reduce_body :
      (is_trade : Bool) (e : NormalizedLobEvent) (i : OrderInfo) (n : ℕ) (queue : List ℕ)
      (s : PaperTradingSimulator)
      → (reduce_body is_trade e i s n queue).seq ≡ s.seq
  seq-reduce_body is_trade e i n queue s =
      let node = order_node s n in
      let take = min_ℤ node.qty e.quantity_lots in
      let larger = ltb_ℤ node.qty e.quantity_lots in
      let s1 =
        if larger
        then emit_diagnostic e requested_order_reduce_with_volume_larger_than_available_for_order_id
            warning s
        else s in
      let s2 = pass_on is_trade e i node.arrival_seq take s1 in
      let fill = on_fill (match_fill s2.seq i node take e) in
      let s3 = if is_trade then emit fill s2 else s2 in
      let gone = node.qty -ℤ take ==ℤ pos 0 in
      seq-diagnostic_if (is_trade && is_strategy e.update_source) e
        paper_order_invokes_passive_match_instead_of_aggressive_trade error
        (if gone then remove_order e.order_id i n queue s3 else set_qty n (node.qty -ℤ take) s3)
      ∙ seq-leave gone e.order_id i n queue (node.qty -ℤ take) s3
      ∙ seq-emit_if is_trade fill s2
      ∙ seq-pass_on is_trade e i node.arrival_seq take s1
      ∙ seq-diagnostic_if larger e
          requested_order_reduce_with_volume_larger_than_available_for_order_id warning s

  seq-reduce_order_found :
      (is_trade : Bool) (e : NormalizedLobEvent) (i : OrderInfo) (s : PaperTradingSimulator)
      → (reduce_order_found is_trade e i s).seq ≡ s.seq
  unfolding emit_diagnostic
  seq-reduce_order_found is_trade e i s =
      option_both (λ (t : PaperTradingSimulator). t.seq ≡ s.seq)
        (H.find i.price_ticks (book i.side s)) _ _ refl
        (λ queue.
          option_both (λ (t : PaperTradingSimulator). t.seq ≡ s.seq) i.node _ _ refl
            (λ n. seq-reduce_body is_trade e i n queue s))

  seq-on_partial_order_cancel :
      (is_trade : Bool) (e : NormalizedLobEvent) (s : PaperTradingSimulator)
      → (on_partial_order_cancel is_trade e s).seq ≡ s.seq
  unfolding on_partial_order_cancel emit_diagnostic
  seq-on_partial_order_cancel is_trade e s =
      if_both (λ (t : PaperTradingSimulator). t.seq ≡ s.seq) (ltb_ℤ e.quantity_lots (pos 0)) _ _
        refl
        (if_both (λ (t : PaperTradingSimulator). t.seq ≡ s.seq) (e.quantity_lots ==ℤ pos 0) _ _ refl
          (option_both (λ (t : PaperTradingSimulator). t.seq ≡ s.seq)
            (H.find e.order_id s.order_info) _ _ refl
            (λ i. seq-reduce_order_found is_trade e i _ ∙ seq-check_stored e i _ _ s)))

  seq-aggress : (e : NormalizedLobEvent) (s : PaperTradingSimulator) → (aggress e s).1.seq ≡ s.seq
  seq-aggress e s = grind (arith, seq-view_levels, seq-take_paper_levels)

  -- The events that `on_aggressive_trade` carries out.
  abbrev is_carried_out : UpdateType → NormalizedLobEvent → Bool
  is_carried_out aggressive_trade e =
      is_strategy e.update_source && not (leb_ℤ e.quantity_lots (pos 0))
  is_carried_out _ e = false

  seq-dispatch :
      (t : UpdateType) (e : NormalizedLobEvent) (s : PaperTradingSimulator)
      → (dispatch t e s).seq ≡ (if is_carried_out t e then next_u64 s.seq else s.seq)
  unfolding dispatch on_delete on_set on_subtract on_match emit_diagnostic on_aggressive_trade
  seq-dispatch add e s = seq-on_add e s
  seq-dispatch aggressive_trade e s = ground (arith, seq-aggress e s)
  seq-dispatch delete e s = ground (arith, seq-delete_paper_order e s, seq-delete_order e s)
  seq-dispatch subtract e s =
      ground (arith, seq-reduce_paper_order e s, seq-on_partial_order_cancel false e s)
  seq-dispatch match e s = seq-on_partial_order_cancel true e s
  seq-dispatch set e s =
      ground (arith, seq-set_paper_order e.order_id e.quantity_lots s, seq-set_order e s)
  seq-dispatch invalid e s = refl

  -- `update` moves the sequence number on by one, for every event and on every branch, except that an
  -- aggressive trade of the strategy for a positive quantity moves it on by two.
  pub update-seq :
      (e : NormalizedLobEvent) (s : PaperTradingSimulator)
      → (update e s).seq
        ≡ (if is_carried_out e.update_type e then next_u64 (next_u64 s.seq) else next_u64 s.seq)
  unfolding update
  update-seq e s =
      let s1 = emit (on_event_apply (apply_record s.seq e)) s in
      ground (arith, seq-dispatch e.update_type e s1)
