-- ===== src/Engine/Fills/Paper.antt =====
-- The lots that an order takes from paper orders, and the lots of its fills.
use lobsim.Base.{
  int_eq, HashMap, Bool, Bool-cases, List, Option, [], arith, false, if_both, if◌then◌else◌, inl,
  inr, int_laws, leb_ℤ, length, ltb_ℤ, min_ℤ, none, option_both, pos, pos_part, refl, some, suc,
  true, zero, ℕ, ℤ, ◌+ℤ◌, ◌-ℤ◌, ◌||◌, ◌∙◌, ◌∷◌, ◌≡◌, sym, ◌≤ℤ◌,
}
use lobsim.Engine.PaperTrade.{
  start, Walk, after_take, go_on, is_done, take_from, taken_fill, taking_loop, taking_round,
  trade_against_paper_level,
}
use lobsim.Engine.Add.{aggress, cross_paper}
use lobsim.Engine.Cross.{
  take_best, take_paper_levels, take_round, view_levels, crosses, crosses_best,
}
use lobsim.Engine.Fills.{
  Balanced, Balanced-of_sink, Balanced-refl, Balanced-trans, Balanced-view_levels, is_logged,
  told_lots-emit, min_ℤ-le, told_lots,
}
use lobsim.Engine.PaperLevel.{
  close_level, drop_paper_node, drop_paper_order, find_paper_level, remove_paper_order,
}
use lobsim.Engine.Prices.{best_paper_opposite_price, best_opposite_price}
use lobsim.Engine.State.{
  PaperOrder, PaperOrderLevel, PaperTradingSimulator, emit, heap, paper_node, book,
}
use lobsim.Types.{NormalizedLobEvent, Side, buy, on_fill, opposite, sell, is_buy}

module _ ⦃H : HashMap⦄ where
  -- The walk over paper orders, with the lots that are left.
  abbrev walked : Walk → ℤ × PaperTradingSimulator
  walked w = (w.trade_lots, w.sim)

  sink-remove_paper_order :
      (n : ℕ) (qty : ℤ) (r : PaperOrderLevel × PaperTradingSimulator)
      → (remove_paper_order n qty r).1.sink ≡ r.1.sink
  unfolding remove_paper_order
  sink-remove_paper_order n qty r = grind arith

  sink-close_level :
      (side : Side) (px : ℤ) (level : PaperOrderLevel) (s : PaperTradingSimulator)
      → (close_level side px level s).sink ≡ s.sink
  sink-close_level buy px level s = grind arith
  sink-close_level sell px level s = grind arith

  sink-after_take :
      (n : ℕ) (id qty : ℤ) (order : PaperOrder) (r : PaperOrderLevel × PaperTradingSimulator)
      → (after_take n id qty order r).1.sink ≡ r.1.sink
  sink-after_take n id qty order r = grind (arith, sink-remove_paper_order)

  -- What the walk has traded is what has gone from the lots that were left.
  record Counts (w w' : Walk) : Type 0 where
    balanced : Balanced (walked w) (walked w')
    traded_lots : w'.moved +ℤ w'.trade_lots ≡ w.moved +ℤ w.trade_lots
    grows : w.moved ≤ℤ w'.moved

  Counts-refl : (w : Walk) → Counts w w
  Counts-refl w = record {
    balanced = Balanced-refl (walked w);
    traded_lots = refl;
    grows = omega arith;
  }

  Counts-stop : (w : Walk) → Counts w (record w { stop = true })
  Counts-stop w = record {
    balanced = Balanced-refl (walked w);
    traded_lots = refl;
    grows = omega arith;
  }

  Counts-drop :
      (w : Walk) (r : PaperOrderLevel × PaperTradingSimulator)
      → r.1.sink ≡ w.sim.sink
      → Counts w (go_on w.trade_lots w.moved r)
  Counts-drop w r h = record {
    balanced =
        Balanced-of_sink (walked w) (walked w) (w.trade_lots, r.1) h refl
          (Balanced-refl (walked w));
    traded_lots = refl;
    grows = omega arith;
  }

  move_lots : (moved lots qty : ℤ) → (moved +ℤ qty) +ℤ (lots -ℤ qty) ≡ moved +ℤ lots
  move_lots moved lots qty = grind int_laws

  add_positive : (a b : ℤ) → ltb_ℤ (pos 0) b ≡ true → a ≤ℤ a +ℤ b
  add_positive a b h = grind int_laws

  Counts-take_from :
      (side : Side) (px : ℤ) (e : NormalizedLobEvent) (n : ℕ) (id : ℤ) (order : PaperOrder)
      (w : Walk)
      → ltb_ℤ (pos 0) (min_ℤ order.remaining_qty w.trade_lots) ≡ true
      → Counts w (take_from side px e n id order w)
  Counts-take_from side px e n id order w h =
      let qty = min_ℤ order.remaining_qty w.trade_lots in
      let f = taken_fill w.sim.seq side px qty id order e in
      let told = emit (on_fill f) w.sim in
      let order' = record order { remaining_qty = order.remaining_qty -ℤ qty } in
      rw h (record {
        balanced =
            Balanced-of_sink (walked w) (w.trade_lots -ℤ qty, told)
              (w.trade_lots -ℤ qty, (after_take n id qty order' (w.level, told)).1)
              (sink-after_take n id qty order' (w.level, told)) refl
              (told_lots-emit f w.trade_lots w.sim (min_ℤ-le order.remaining_qty w.trade_lots));
        traded_lots = move_lots w.moved w.trade_lots qty;
        grows = add_positive w.moved qty h;
      })

  min_ℤ-positive :
      (a b : ℤ)
      → leb_ℤ a (pos 0) ≡ false
      → leb_ℤ b (pos 0) ≡ false
      → ltb_ℤ (pos 0) (min_ℤ a b) ≡ true
  unfolding min_ℤ
  min_ℤ-positive a b p q = ground arith

  Counts-taking_found :
      (side : Side) (px : ℤ) (e : NormalizedLobEvent) (n : ℕ) (id : ℤ) (order : PaperOrder)
      (w : Walk)
      → leb_ℤ w.trade_lots (pos 0) ≡ false
      → Counts w (
          if leb_ℤ order.remaining_qty (pos 0) || is_done order.status
          then go_on w.trade_lots w.moved (drop_paper_order n (w.level, w.sim))
          else take_from side px e n id order w)
  Counts-taking_found side px e n id order w more =
      elim (Bool-cases (leb_ℤ order.remaining_qty (pos 0) || is_done order.status)) [
        | inl gone ↦ rw gone (Counts-drop w (drop_paper_order n (w.level, w.sim)) refl)
        | inr live ↦ rw live (
            Counts-take_from side px e n id order w
              (min_ℤ-positive order.remaining_qty w.trade_lots (ground (arith, live)) more))
      ]

  Counts-taking_round :
      (side : Side) (px : ℤ) (e : NormalizedLobEvent) (n : ℕ) (w : Walk)
      → Counts w (taking_round side px e n w)
  unfolding taking_round
  Counts-taking_round side px e n w = elim (Bool-cases (leb_ℤ w.trade_lots (pos 0))) [
    | inl done ↦ rw done (Counts-stop w)
    | inr more ↦ rw more (
        option_both (Counts w) (H.find (paper_node w.sim n).order_id w.sim.paper_orders) _ _
          (Counts-drop w (drop_paper_node n (w.level, w.sim)) refl)
          (λ order. Counts-taking_found side px e n (paper_node w.sim n).order_id order w more))
  ]

  Counts-taking_loop :
      (side : Side) (px : ℤ) (e : NormalizedLobEvent) (ns : List ℕ) (w : Walk)
      → Counts w (taking_loop side px e ns w)
  unfolding taking_loop
  Counts-taking_loop side px e [] w = Counts-refl w
  Counts-taking_loop side px e (n ∷ ns) w =
      let w' = taking_round side px e n w in
      let first = Counts-taking_round side px e n w in
      let rest = Counts-taking_loop side px e ns w' in
      if_both (Counts w) w'.stop _ _ first (record {
        balanced =
            Balanced-trans (walked w) (walked w') (walked (taking_loop side px e ns w'))
              first.balanced rest.balanced;
        traded_lots = rest.traded_lots ∙ first.traded_lots;
        grows = omega (arith, first.grows, rest.grows);
      })

  -- The lots that were traded have gone from the lots that were left.
  abbrev Traded : ℤ → PaperTradingSimulator → ℤ × PaperTradingSimulator → Type 0
  Traded lots s r = Balanced (lots, s) (lots -ℤ r.0, r.1) × (pos 0 ≤ℤ r.0)

  minus_zero : (lots : ℤ) → lots -ℤ pos 0 ≡ lots
  minus_zero lots = grind int_laws

  Traded-none : (lots : ℤ) (s : PaperTradingSimulator) → Traded lots s (pos 0, s)
  Traded-none lots s = (
    Balanced-of_sink (lots, s) (lots, s) (lots -ℤ pos 0, s) refl (minus_zero lots)
        (Balanced-refl (lots, s)),
    omega arith,
  )

  left_over :
      (lots : ℤ) (w : Walk)
      → w.moved +ℤ w.trade_lots ≡ pos 0 +ℤ lots
      → lots -ℤ w.moved ≡ w.trade_lots
  left_over lots w h = grind int_laws

  Traded-trade_against_paper_level :
      (side : Side) (px lots : ℤ) (e : NormalizedLobEvent) (s : PaperTradingSimulator)
      → Traded lots s (trade_against_paper_level side px lots e s)
  unfolding trade_against_paper_level
  Traded-trade_against_paper_level side px lots e s =
      if_both (Traded lots s) (leb_ℤ lots (pos 0)) _ _ (Traded-none lots s) (
        option_both (Traded lots s) (find_paper_level side px s) _ _ (Traded-none lots s) (λ level.
          let w = taking_loop side px e level.orders (start lots level s) in
          let c = Counts-taking_loop side px e level.orders (start lots level s) in
          (
            Balanced-of_sink (lots, s) (walked w)
                (lots -ℤ w.moved, close_level side px w.level w.sim)
                (sink-close_level side px w.level w.sim) (left_over lots w c.traded_lots)
                c.balanced,
            c.grows,
          )))

  minus_nothing : (a b : ℤ) → leb_ℤ b (pos 0) ≡ true → pos 0 ≤ℤ b → a -ℤ b ≡ a
  minus_nothing a b p q = grind int_laws

  Balanced-take_best :
      (limit : ℤ → Bool) (e : NormalizedLobEvent) (best : Option ℤ) (r : ℤ × PaperTradingSimulator)
      → Balanced r (take_best limit e best r).1
  Balanced-take_best limit e none r = Balanced-refl r
  Balanced-take_best limit e (some px) r =
      let t = trade_against_paper_level (opposite e.side) px r.0 e r.1 in
      let b = Traded-trade_against_paper_level (opposite e.side) px r.0 e r.1 in
      if_both (λ (x : Bool × (ℤ × PaperTradingSimulator)). Balanced r x.1) (limit px) _ _
        (elim (Bool-cases (leb_ℤ t.0 (pos 0))) [
          | inl nothing ↦ rw nothing (
              Balanced-of_sink r (r.0 -ℤ t.0, t.1) (r.0, t.1) refl
                (sym (minus_nothing r.0 t.0 nothing b.1)) b.0)
          | inr more ↦ rw more b.0
        ])
        (Balanced-refl r)

  Balanced-take_round :
      (limit : ℤ → Bool) (e : NormalizedLobEvent) (r : ℤ × PaperTradingSimulator)
      → Balanced r (take_round limit e r).1
  Balanced-take_round limit e r =
      let best = best_paper_opposite_price (opposite e.side) r.1 in
      if_both (λ (x : Bool × (ℤ × PaperTradingSimulator)). Balanced r x.1) (leb_ℤ r.0 (pos 0)) _ _
        (Balanced-refl r) (Balanced-take_best limit e best r)

  Balanced-take_paper_levels :
      (fuel : ℕ) (limit : ℤ → Bool) (e : NormalizedLobEvent) (r : ℤ × PaperTradingSimulator)
      → Balanced r (take_paper_levels fuel limit e r)
  unfolding take_paper_levels
  Balanced-take_paper_levels zero limit e r = Balanced-refl r
  Balanced-take_paper_levels (suc fuel) limit e r =
      let x = take_round limit e r in
      let first = Balanced-take_round limit e r in
      if_both (Balanced r) x.0 _ _ first (
        Balanced-trans r x.1 (take_paper_levels fuel limit e x.1) first
          (Balanced-take_paper_levels fuel limit e x.1))

  -- With a sink, and for a quantity that is not negative, the lots of the fills that an aggressive
  -- trade of the strategy tells, from the book and then from paper orders, and the lots that it could
  -- not trade make up the quantity of the order, and the lots it could not trade are not negative.
  pub aggress-Balanced :
      (e : NormalizedLobEvent) (s : PaperTradingSimulator)
      → is_logged s ≡ true
      → pos 0 ≤ℤ e.quantity_lots
      → (told_lots (aggress e s).1.sink +ℤ (aggress e s).0 ≡ told_lots s.sink +ℤ e.quantity_lots)
        × (pos 0 ≤ℤ (aggress e s).0)
  aggress-Balanced e s h q =
      let h0 = heap (opposite e.side) s in
      let r = view_levels (suc (length h0)) (λ px. true) e h0 (e.quantity_lots, s) in
      let b =
        Balanced-trans (e.quantity_lots, s) r (aggress e s)
          (Balanced-view_levels (suc (length h0)) (λ px. true) e h0 (e.quantity_lots, s))
          (Balanced-take_paper_levels (pos_part r.0) (λ px. true) e r) in
      ((b.told h).1, b.left q)

  -- With a sink, and for a quantity that is not negative, the lots of the fills that the matching of a
  -- strategy's new order tells and the lots that are left to rest make up the quantity of the order,
  -- and the lots left are not negative.
  pub cross_paper-Balanced :
      (e : NormalizedLobEvent) (s : PaperTradingSimulator)
      → is_logged s ≡ true
      → pos 0 ≤ℤ e.quantity_lots
      → (told_lots (cross_paper e s).1.sink +ℤ (cross_paper e s).0
          ≡ told_lots s.sink +ℤ e.quantity_lots)
        × (pos 0 ≤ℤ (cross_paper e s).0)
  cross_paper-Balanced e s h q =
      let opp = opposite e.side in
      let seen = best_opposite_price (is_buy e.side) (book opp s) (heap opp s) in
      let b =
        if_both (Balanced (e.quantity_lots, s)) (crosses_best e seen.0) _ _
          (Balanced-view_levels (suc (length seen.1)) (crosses e) e seen.1 (e.quantity_lots, s))
          (Balanced-refl (e.quantity_lots, s)) in
      ((b.told h).1, b.left q)
