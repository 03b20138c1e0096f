-- ===== src/Engine/Uncrossed.antt =====
-- The bids and the asks of the historical book against each other: what an order of the market leaves
-- at its price, behind the matching loop of `on_add`.
pub mod Update
use lobsim.Base.{
  int_eq, Bool, HashMap, List, Option, [], arith, false, ◌<◌, ◌⊎◌, if_both, if◌then◌else◌, is_empty,
  leb_ℤ, none, refl, some, true, ℕ, ℤ, ◌++◌, ◌<ℤ◌, ◌∷◌, ◌≡◌, Bool-cases, inl, inr, length,
  option_both, subst, suc, sym, zero, ap, pos_part, ◌∙◌,
}
use lobsim.Types.{NormalizedLobEvent, Side, buy, is_buy, opposite, sell}
use lobsim.Engine.Add.{join_book, index_order, rest_market, resting_node, add_market, cross_market}
use lobsim.Engine.BestPrice.{IsBest, best_opposite_price-IsBest}
use lobsim.Engine.Books.{Books, books, book_of_books, books-join_market, books_of_market}
use lobsim.Engine.Covered.{Covered, Covered-look, Covered-of_books, Covered-stable, Covers}
use lobsim.Engine.Cross.{crosses_best, look, match_levels, take_paper_levels, crosses}
use lobsim.Engine.Prices.{best_opposite_price, is_live}
use lobsim.Engine.Stable.Shrink.{live-assign}
use lobsim.Engine.State.{
  Book, PaperTradingSimulator, book, heap, queue_at, with_book, with_heap, blank_order_node,
  emit_diagnostic,
}
use lobsim.Engine.Matching.{
  IsMatched, look_again, match_levels-IsMatched, prices_left, prices_left_le, used_up,
}
use lobsim.Pool.{acquire}
use lobsim.Engine.Isolation.{market-take_paper_levels}
use lobsim.Engine.Stable.Match.{Holds-cross_market, Holds-match_levels}

-- `crosses` and `crosses_best` of Engine/Cross, over the side and the price.
abbrev crosses_at : Side → ℤ → ℤ → Bool
crosses_at side price best = if is_buy side then leb_ℤ best price else leb_ℤ price best

abbrev crosses_at_best : Side → ℤ → Option ℤ → Bool
crosses_at_best side price none = false
crosses_at_best side price (some px) = crosses_at side price px

crosses_best_at :
    (e : NormalizedLobEvent) (best : Option ℤ)
    → crosses_best e best ≡ crosses_at_best e.side e.price_ticks best
crosses_best_at e none = refl
crosses_best_at e (some px) = refl

module _ ⦃H : HashMap⦄ where
  abbrev pub Uncrossed : Books → Type 0
  Uncrossed b = (p q : ℤ) → is_live b.bids p ≡ true → is_live b.asks q ≡ true → p <ℤ q

  pub Uncrossed-stable :
      (side : Side) (b : Book) (s : PaperTradingSimulator)
      → ((q : ℤ) → is_live b q ≡ true → is_live (book side s) q ≡ true)
      → Uncrossed (books s)
      → Uncrossed (books (with_book side b s))
  Uncrossed-stable buy b s shrinks u p q lp lq = u p q (shrinks p lp) lq
  Uncrossed-stable sell b s shrinks u p q lp lq = u p q lp (shrinks q lq)

  Uncrossed-with_heap :
      (side : Side) (h : List ℤ) (s : PaperTradingSimulator)
      → Uncrossed (books s)
      → Uncrossed (books (with_heap side h s))
  Uncrossed-with_heap buy h s u = u
  Uncrossed-with_heap sell h s u = u

  Uncrossed-look :
      (e : NormalizedLobEvent) (s : PaperTradingSimulator)
      → Uncrossed (books s)
      → Uncrossed (books (look e s).1)
  Uncrossed-look e s u =
      Uncrossed-with_heap (opposite e.side)
        (best_opposite_price (is_buy e.side) (book (opposite e.side) s)
          (heap (opposite e.side) s)).1
        s u

  -- No order that rests on the other side crosses the price.
  abbrev NoCross : Side → ℤ → PaperTradingSimulator → Type 0
  NoCross side price s =
      (q : ℤ) → is_live (book (opposite side) s) q ≡ true → crosses_at side price q ≡ false

  IsBest-no_cross :
      (side : Side) (price : ℤ) (b : Book) (best : Option ℤ)
      → IsBest (is_buy side) b best
      → crosses_at_best side price best ≡ false
      → (q : ℤ) → is_live b q ≡ true
      → crosses_at side price q ≡ false
  IsBest-no_cross side price b none best h q live = ground (arith, best q)
  IsBest-no_cross buy price b (some px) best h q live = ground (arith, best.1 q)
  IsBest-no_cross sell price b (some px) best h q live = ground (arith, best.1 q)

  NoCross-look :
      (side : Side) (price : ℤ) (s : PaperTradingSimulator)
      → Covered s
      → crosses_at_best side price
          (best_opposite_price (is_buy side) (book (opposite side) s) (heap (opposite side) s)).0
        ≡ false
      → NoCross side price s
  NoCross-look buy price s c h =
      IsBest-no_cross buy price s.asks _ (best_opposite_price-IsBest true s.asks s.asks_heap c.1).0
        h
  NoCross-look sell price s c h =
      IsBest-no_cross sell price s.bids _
        (best_opposite_price-IsBest false s.bids s.bids_heap c.0).0 h

  -- The matching loop of an order of the market, on a book that its heaps cover and with more fuel than
  -- prices that a first look leaves on the heap of the other side, does not stop early: it leaves the
  -- order used up, or the order crosses no price of the other side at which an order still rests.
  pub match_levels-NoCross :
      (fuel : ℕ) (e : NormalizedLobEvent) (r : ℤ × PaperTradingSimulator)
      → Covered r.1
      → prices_left e r.1 < fuel
      → let r' = match_levels fuel e r in
        (used_up r'.0 ≡ true)
        ⊎ ((q : ℤ) → is_live (book (opposite e.side) r'.1) q ≡ true → crosses e q ≡ false)
  match_levels-NoCross fuel e r c enough =
      let r' = match_levels fuel e r in
      elim (match_levels-IsMatched fuel e r enough) [
        | inl u ↦ inl u
        | inr miss ↦ inr (
            NoCross-look e.side e.price_ticks r'.1
              (Holds-match_levels Covers Covered-stable Covered-look fuel e r c)
              (sym (crosses_best_at e (look e r'.1).0) ∙ miss))
      ]

  -- An order may rest at a price that no order of the other side crosses.
  Uncrossed-join_book :
      (side : Side) (px : ℤ) (n : ℕ) (s : PaperTradingSimulator)
      → NoCross side px s
      → Uncrossed (books s)
      → Uncrossed (books (join_book side px n s))
  Uncrossed-join_book buy px n s nc u =
      if_both (λ (x : PaperTradingSimulator). Uncrossed (books x)) (is_empty (queue_at px s.bids)) _
        _ joined joined
    where
      joined :
          (p q : ℤ)
          → is_live (H.assign px (queue_at px s.bids ++ n ∷ []) s.bids) p ≡ true
          → is_live s.asks q ≡ true
          → p <ℤ q
      joined p q lp lq = ground (arith, live-assign px p _ s.bids lp, nc q lq, u p q)
  Uncrossed-join_book sell px n s nc u =
      if_both (λ (x : PaperTradingSimulator). Uncrossed (books x)) (is_empty (queue_at px s.asks)) _
        _ joined joined
    where
      joined :
          (p q : ℤ)
          → is_live s.bids p ≡ true
          → is_live (H.assign px (queue_at px s.asks ++ n ∷ []) s.asks) q ≡ true
          → p <ℤ q
      joined p q lp lq = ground (arith, live-assign px q _ s.asks lq, nc p lp, u p q)

  NoCross-of_books :
      (side : Side) (px : ℤ) (s t : PaperTradingSimulator)
      → books s ≡ books t
      → NoCross side px t
      → NoCross side px s
  NoCross-of_books side px s t e nc q live =
      nc q (subst (λ b. is_live b q ≡ true) (book_of_books (opposite side) s t e) live)

  Uncrossed-rest_market :
      (e : NormalizedLobEvent) (remaining : ℤ) (s : PaperTradingSimulator)
      → NoCross e.side e.price_ticks s
      → Uncrossed (books s)
      → Uncrossed (books (rest_market e remaining s))
  unfolding rest_market emit_diagnostic
  Uncrossed-rest_market e remaining s nc u =
      option_both (λ (x : PaperTradingSimulator). Uncrossed (books x))
        (acquire blank_order_node s.pool_config.historical_capacity s.order_pool).0 _ _ u
        (λ n.
          let s0 : PaperTradingSimulator = record s {
            order_pool =
                (acquire blank_order_node s.pool_config.historical_capacity s.order_pool).1;
          } in
          let s1 = index_order e remaining n s0 in
          let s2 = join_book e.side e.price_ticks n s1 in
          subst Uncrossed
            (sym (
              books-join_market e.side e.price_ticks (resting_node e remaining s.order_arrival_seq)
                s2))
            (Uncrossed-join_book e.side e.price_ticks n s1
              (NoCross-of_books e.side e.price_ticks s1 s refl nc) u))

  take_paper_levels-used_up :
      (fuel : ℕ) (limit : ℤ → Bool) (e : NormalizedLobEvent) (r : ℤ × PaperTradingSimulator)
      → used_up r.0 ≡ true
      → take_paper_levels fuel limit e r ≡ r
  unfolding take_paper_levels
  take_paper_levels-used_up zero limit e r u = refl
  take_paper_levels-used_up (suc fuel) limit e r u = rw u refl

  -- The matching of `cross_market`, before the paper levels.
  abbrev matched_market : NormalizedLobEvent → PaperTradingSimulator → ℤ × PaperTradingSimulator
  matched_market e s =
      let (best, s1) = look e s in
      if crosses_best e best
      then match_levels (suc (length (heap (opposite e.side) s1))) e (e.quantity_lots, s1)
      else (e.quantity_lots, s1)

  IsMatched-matched_market :
      (e : NormalizedLobEvent) (s : PaperTradingSimulator) → IsMatched e (matched_market e s)
  IsMatched-matched_market e s = elim (Bool-cases (crosses_best e (look e s).0)) [
    | inl hit ↦ rw hit (
        match_levels-IsMatched _ e (e.quantity_lots, (look e s).1)
          (omega (arith, prices_left_le e (look e s).1)))
    | inr miss ↦ rw miss (inr (rw (look_again e s) miss))
  ]

  -- What an order of the market has left when it rests does not cross the other side.
  NoCross-cross_market :
      (e : NormalizedLobEvent) (s : PaperTradingSimulator)
      → Covered s
      → used_up (cross_market e s).0 ≡ false
      → NoCross e.side e.price_ticks (cross_market e s).1
  NoCross-cross_market e s c more =
      let r = matched_market e s in
      let same =
        books_of_market (cross_market e s).1 r.1
          (market-take_paper_levels (pos_part r.0) (crosses e) e r) in
      NoCross-of_books e.side e.price_ticks (cross_market e s).1 r.1 same
        (elim (IsMatched-matched_market e s) [
          | inl u ↦ absurd (
              ground (
                arith,
                u,
                more,
                ap (λ (x : ℤ × PaperTradingSimulator). x.0)
                    (take_paper_levels-used_up (pos_part r.0) (crosses e) e r u),
              ))
          | inr miss ↦
              NoCross-look e.side e.price_ticks r.1
                (Covered-of_books r.1 (cross_market e s).1 (sym same)
                  (Holds-cross_market Covers Covered-stable Covered-look e s c))
                (sym (crosses_best_at e (look e r.1).0) ∙ miss)
        ])

  pub Uncrossed-add_market :
      (e : NormalizedLobEvent) (s : PaperTradingSimulator)
      → Covered s
      → Uncrossed (books s)
      → Uncrossed (books (add_market e s))
  Uncrossed-add_market e s c u =
      let u' = Holds-cross_market Uncrossed Uncrossed-stable Uncrossed-look e s u in
      let r = cross_market e s in
      elim (Bool-cases (used_up r.0)) [
        | inl done ↦ rw done u'
        | inr more ↦ rw more (Uncrossed-rest_market e r.0 r.1 (NoCross-cross_market e s c more) u')
      ]
