-- ===== src/Engine/Stable/Cancel.antt =====
-- A stable property is kept: an order of the market is deleted, set or reduced.
use lobsim.Base.{
  int_eq, Bool, HashMap, List, Option, if_both, if◌then◌else◌, ltb_ℤ, min_ℤ, neg_ℤ, none,
  option_both, pos, refl, some, subst, sym, true, ℕ, ℤ, ◌&&◌, ◌-ℤ◌, ◌==ℤ◌, ◌∙◌, ◌≡◌,
}
use lobsim.Types.{
  DiagnosticRecordCode, DiagnosticRecordSeverity, NormalizedLobEvent, Side,
  corrupt_book_price_in_order_info_but_not_in_book, error, is_strategy, on_fill,
  paper_order_invokes_passive_match_instead_of_aggressive_trade,
  requested_order_reduce_with_volume_larger_than_available_for_order_id,
  set_with_negative_liquidity_requested_was_set_to_zero, warning,
}
use lobsim.Engine.Books.{
  Books, book_of_books, books, books-adjust_if, books-adjust_unless, books-check_stored,
  books-diagnostic_if, books-emit_if, books-pass_on,
}
use lobsim.Engine.Cancel.{
  check_stored, delete_found, delete_order, drop_order, match_fill, on_partial_order_cancel,
  pass_on, reduce_order_found, remove_order, set_order, set_order_found, with_order,
}
use lobsim.Engine.PaperLevel.{adjust_market_at}
use lobsim.Engine.Prices.{is_live}
use lobsim.Engine.Stable.Shrink.{Holds-remove_order, Holds-of_books}
use lobsim.Engine.State.{
  Book, OrderInfo, PaperTradingSimulator, book, emit, emit_diagnostic, order_node, with_book,
}

module _ ⦃H : HashMap⦄ (P : Books → Type 0)
    (stable : (side : Side) (b : Book) (s : PaperTradingSimulator)
      → ((q : ℤ) → is_live b q ≡ true → is_live (book side s) q ≡ true)
      → P (books s)
      → P (books (with_book side b s))) where
  abbrev Holds : PaperTradingSimulator → Type 0
  Holds s = P (books s)

  -- `with_order` runs its body on the queue that the book has.
  Holds-with_order :
      (e : NormalizedLobEvent) (i : OrderInfo) (body : ℕ → List ℕ → PaperTradingSimulator)
      (s : PaperTradingSimulator)
      → ((n : ℕ) (queue : List ℕ)
          → H.find i.price_ticks (book i.side s) ≡ some queue
          → Holds (body n queue))
      → Holds s
      → Holds (with_order e i body s)
  unfolding emit_diagnostic
  Holds-with_order e i body s keep c = found (H.find i.price_ticks (book i.side s)) refl
    where
      found :
          (q : Option (List ℕ))
          → H.find i.price_ticks (book i.side s) ≡ q
          → Holds (elim q [
            | none ↦ emit_diagnostic e corrupt_book_price_in_order_info_but_not_in_book error s
            | some queue ↦ elim i.node [
              | none ↦ emit_diagnostic e corrupt_book_price_in_order_info_but_not_in_book error s
              | some n ↦ body n queue
            ]
          ])
      found none h = c
      found (some queue) h = option_both Holds i.node _ _ c (λ n. keep n queue h)

  Holds-remove_found :
      (id : ℤ) (i : OrderInfo) (n : ℕ) (queue : List ℕ) (s t : PaperTradingSimulator)
      → books t ≡ books s
      → H.find i.price_ticks (book i.side s) ≡ some queue
      → Holds t
      → Holds (remove_order id i n queue t)
  Holds-remove_found id i n queue s t same h c =
      Holds-remove_order P stable id i n queue t
        (subst (λ b. H.find i.price_ticks b ≡ some queue)
          (sym (book_of_books i.side (drop_order id n t) s same)) h)
        c

  Holds-check_stored :
      (e : NormalizedLobEvent) (i : OrderInfo) (k d : DiagnosticRecordCode)
      (s : PaperTradingSimulator)
      → Holds s
      → Holds (check_stored e i k d s)
  Holds-check_stored e i k d s c =
      Holds-of_books P stable (check_stored e i k d s) s (books-check_stored e i k d s) c

  Holds-delete_found :
      (e : NormalizedLobEvent) (i : OrderInfo) (s : PaperTradingSimulator)
      → Holds s
      → Holds (delete_found e i s)
  Holds-delete_found e i s c =
      Holds-with_order e i _ s
        (λ n queue h.
          let node = order_node s n in
          let same =
            books-adjust_if (ltb_ℤ (pos 0) node.qty) i.side i.price_ticks node.arrival_seq
              (neg_ℤ node.qty) s in
          let s1 =
            if ltb_ℤ (pos 0) node.qty
            then adjust_market_at i.side i.price_ticks node.arrival_seq (neg_ℤ node.qty) s
            else s in
          Holds-remove_found e.order_id i n queue s s1 same h (Holds-of_books P stable s1 s same c))
        c

  pub Holds-delete_order :
      (e : NormalizedLobEvent) (s : PaperTradingSimulator) → Holds s → Holds (delete_order e s)
  unfolding delete_order emit_diagnostic
  Holds-delete_order e s c =
      option_both Holds (H.find e.order_id s.order_info) _ _ c
        (λ i. Holds-delete_found e i _ (Holds-check_stored e i _ _ s c))

  Holds-set_order_found :
      (e : NormalizedLobEvent) (i : OrderInfo) (s : PaperTradingSimulator)
      → Holds s
      → Holds (set_order_found e i s)
  Holds-set_order_found e i s c =
      Holds-with_order e i _ s
        (λ n queue h.
          let node = order_node s n in
          let qty = if ltb_ℤ e.quantity_lots (pos 0) then pos 0 else e.quantity_lots in
          let delta = qty -ℤ node.qty in
          let s1 =
            if delta ==ℤ pos 0
            then s
            else adjust_market_at i.side i.price_ticks node.arrival_seq delta s in
          let same =
            books-adjust_unless (delta ==ℤ pos 0) i.side i.price_ticks node.arrival_seq delta s in
          let c1 = Holds-of_books P stable s1 s same c in
          if_both Holds (qty ==ℤ pos 0) _ _ (Holds-remove_found e.order_id i n queue s s1 same h c1)
            c1)
        c

  pub Holds-emit_if :
      (b : Bool) (e : NormalizedLobEvent) (k : DiagnosticRecordCode) (v : DiagnosticRecordSeverity)
      (s : PaperTradingSimulator)
      → Holds s
      → Holds (if b then emit_diagnostic e k v s else s)
  unfolding emit_diagnostic
  Holds-emit_if b e k v s c = if_both Holds b _ _ c c

  pub Holds-set_order :
      (e : NormalizedLobEvent) (s : PaperTradingSimulator) → Holds s → Holds (set_order e s)
  unfolding set_order
  Holds-set_order e s c =
      let c1 =
        Holds-emit_if (ltb_ℤ e.quantity_lots (pos 0)) e
          set_with_negative_liquidity_requested_was_set_to_zero warning s c in
      option_both Holds _ _ _ (Holds-emit_if true e _ _ _ c1)
        (λ i. Holds-set_order_found e i _ (Holds-check_stored e i _ _ _ c1))

  Holds-reduce_order_found :
      (is_trade : Bool) (e : NormalizedLobEvent) (i : OrderInfo) (s : PaperTradingSimulator)
      → Holds s
      → Holds (reduce_order_found is_trade e i s)
  Holds-reduce_order_found is_trade e i s c =
      Holds-with_order e i _ s
        (λ n queue h.
          let node = order_node s n in
          let take = min_ℤ node.qty e.quantity_lots in
          let s1 =
            if ltb_ℤ node.qty e.quantity_lots
            then emit_diagnostic e
                requested_order_reduce_with_volume_larger_than_available_for_order_id warning s
            else s in
          let s2 = pass_on is_trade e i node.arrival_seq take s1 in
          let s3 = if is_trade then emit (on_fill (match_fill s2.seq i node take e)) s2 else s2 in
          let same3 : books s3 ≡ books s =
            books-emit_if is_trade (on_fill (match_fill s2.seq i node take e)) s2 s (
              books-pass_on is_trade e i node.arrival_seq take s1
              ∙ books-diagnostic_if (ltb_ℤ node.qty e.quantity_lots) e
                  requested_order_reduce_with_volume_larger_than_available_for_order_id warning
                  s) in
          let c3 = Holds-of_books P stable s3 s same3 c in
          Holds-emit_if (is_trade && is_strategy e.update_source) e
            paper_order_invokes_passive_match_instead_of_aggressive_trade error _
            (if_both Holds (node.qty -ℤ take ==ℤ pos 0) _ _
              (Holds-remove_found e.order_id i n queue s s3 same3 h c3) c3))
        c

  pub Holds-on_partial_order_cancel :
      (is_trade : Bool) (e : NormalizedLobEvent) (s : PaperTradingSimulator)
      → Holds s
      → Holds (on_partial_order_cancel is_trade e s)
  unfolding on_partial_order_cancel
  Holds-on_partial_order_cancel is_trade e s c =
      if_both Holds (ltb_ℤ e.quantity_lots (pos 0)) _ _ (Holds-emit_if true e _ _ s c) (
        if_both Holds (e.quantity_lots ==ℤ pos 0) _ _ (Holds-emit_if true e _ _ s c) (
          option_both Holds (H.find e.order_id s.order_info) _ _ (Holds-emit_if true e _ _ s c)
            (λ i. Holds-reduce_order_found is_trade e i _ (Holds-check_stored e i _ _ s c))))
