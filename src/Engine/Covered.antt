-- ===== src/Engine/Covered.antt =====
-- The heaps against the books: a new order that rests (`on_add`).
pub mod Update
use lobsim.Base.{
  int_eq, Bool, HashMap, List, [], arith, false, if_both, if◌then◌else◌, is_empty, leb_ℤ, not,
  option_both, pos, refl, subst, sym, true, ℕ, ℤ, ◌++◌, ◌∷◌, ◌≡◌,
}
use lobsim.Types.{NormalizedLobEvent, Side, buy, is_buy, opposite, sell}
use lobsim.Engine.Add.{
  add_market, cross_market, index_order, join_book, place_market, rest_market, resting_node,
}
use lobsim.Engine.BestPrice.{
  IsCovered, IsCovered-push, IsCovered-shrink, best_opposite_price-IsBest,
}
use lobsim.Engine.Books.{Books, books, books-join_market}
use lobsim.Engine.Prices.{best_opposite_price, encode, is_live, push_price}
use lobsim.Engine.Stable.Match.{Holds-cross_market}
use lobsim.Engine.Stable.Shrink.{live-assign}
use lobsim.Engine.State.{
  Book, OrderPoolConfig, PaperTradingSimulator, blank_order_node, book, emit_diagnostic, heap, init,
  queue_at, with_book, with_heap,
}
use lobsim.Pool.{acquire}

module _ ⦃H : HashMap⦄ where
  abbrev pub Covers : Books → Type 0
  Covers b = IsCovered false b.bids b.bids_heap × IsCovered true b.asks b.asks_heap

  -- Both heaps cover their books.
  abbrev pub Covered : PaperTradingSimulator → Type 0
  Covered s = Covers (books s)

  pub Covered-of_books : (s t : PaperTradingSimulator) → books s ≡ books t → Covered t → Covered s
  Covered-of_books s t e c = subst Covers (sym e) c

  Covered-with_heap :
      (side : Side) (h : List ℤ) (s : PaperTradingSimulator)
      → IsCovered (not (is_buy side)) (book side s) h
      → Covered s
      → Covered (with_heap side h s)
  Covered-with_heap buy b s h c = (h, c.1)
  Covered-with_heap sell b s h c = (c.0, h)

  Covered-with_book :
      (side : Side) (b : Book) (s : PaperTradingSimulator)
      → IsCovered (not (is_buy side)) b (heap side s)
      → Covered s
      → Covered (with_book side b s)
  Covered-with_book buy b s h c = (h, c.1)
  Covered-with_book sell b s h c = (c.0, h)

  Covered-side :
      (side : Side) (s : PaperTradingSimulator)
      → Covered s
      → IsCovered (not (is_buy side)) (book side s) (heap side s)
  Covered-side buy s c = c.0
  Covered-side sell s c = c.1

  pub Covered-stable :
      (side : Side) (b : Book) (s : PaperTradingSimulator)
      → ((q : ℤ) → is_live b q ≡ true → is_live (book side s) q ≡ true)
      → Covered s
      → Covered (with_book side b s)
  Covered-stable side b s shrinks c =
      Covered-with_book side b s
        (IsCovered-shrink (not (is_buy side)) (book side s) b (heap side s) shrinks
          (Covered-side side s c))
        c

  -- The state after a look at the other side: stale prices are popped.
  pub Covered-look :
      (e : NormalizedLobEvent) (s : PaperTradingSimulator)
      → Covered s
      → Covered (
          with_heap
            (opposite e.side)
            (best_opposite_price
              (is_buy e.side)
              (book (opposite e.side) s)
              (heap (opposite e.side) s)).1
            s)
  Covered-look e s c = Covered_look_at e.side s c
    where
      Covered_look_at :
          (side : Side) (s : PaperTradingSimulator)
          → Covered s
          → Covered (
              with_heap
                (opposite side)
                (best_opposite_price
                  (is_buy side)
                  (book (opposite side) s)
                  (heap (opposite side) s)).1
                s)
      Covered_look_at buy s c = (c.0, (best_opposite_price-IsBest true s.asks s.asks_heap c.1).1)
      Covered_look_at sell s c = ((best_opposite_price-IsBest false s.bids s.bids_heap c.0).1, c.1)

  pub IsCovered-join_new :
      (is_ask : Bool) (px : ℤ) (ns : List ℕ) (b : Book) (h : List ℤ)
      → IsCovered is_ask b h
      → IsCovered is_ask (H.assign px ns b) (push_price (encode is_ask px) h)
  IsCovered-join_new is_ask px ns b h c =
      IsCovered-push is_ask b (H.assign px ns b) px h (λ q. live-assign px q ns b) c

  IsCovered-join_old :
      (is_ask : Bool) (px : ℤ) (ns : List ℕ) (b : Book) (h : List ℤ)
      → is_live b px ≡ true
      → IsCovered is_ask b h
      → IsCovered is_ask (H.assign px ns b) h
  IsCovered-join_old is_ask px ns b h live c =
      IsCovered-shrink is_ask b (H.assign px ns b) h
        (λ q l. ground (arith, live-assign px q ns b l)) c

  -- The queue of `join_book`, behind its test.
  join_book_at :
      (side : Side) (px : ℤ) (ns : List ℕ) (s : PaperTradingSimulator) (fresh : Bool)
      → is_live (book side s) px ≡ not fresh
      → Covered s
      → let s1 = with_book side (H.assign px ns (book side s)) s in
        Covered (
          if fresh
          then with_heap side (push_price (encode (not (is_buy side)) px) (heap side s1)) s1
          else s1)
  join_book_at buy px ns s true h c = (IsCovered-join_new false px ns s.bids s.bids_heap c.0, c.1)
  join_book_at sell px ns s true h c = (c.0, IsCovered-join_new true px ns s.asks s.asks_heap c.1)
  join_book_at buy px ns s false h c =
      (IsCovered-join_old false px ns s.bids s.bids_heap h c.0, c.1)
  join_book_at sell px ns s false h c =
      (c.0, IsCovered-join_old true px ns s.asks s.asks_heap h c.1)

  pub Covered-join_book :
      (side : Side) (px : ℤ) (n : ℕ) (s : PaperTradingSimulator)
      → Covered s
      → Covered (join_book side px n s)
  Covered-join_book side px n s c =
      join_book_at side px (queue_at px (book side s) ++ n ∷ []) s
        (is_empty (queue_at px (book side s))) refl c

  Covered-place_market :
      (e : NormalizedLobEvent) (remaining : ℤ) (n : ℕ) (s : PaperTradingSimulator)
      → Covered s
      → Covered (place_market e remaining n s)
  Covered-place_market e remaining n s c =
      let s1 = join_book e.side e.price_ticks n (index_order e remaining n s) in
      Covered-of_books (place_market e remaining n s) s1
        (books-join_market e.side e.price_ticks (resting_node e remaining s.order_arrival_seq) s1)
        (Covered-join_book e.side e.price_ticks n (index_order e remaining n s) c)

  Covered-rest_market :
      (e : NormalizedLobEvent) (remaining : ℤ) (s : PaperTradingSimulator)
      → Covered s
      → Covered (rest_market e remaining s)
  unfolding rest_market emit_diagnostic
  Covered-rest_market e remaining s c =
      option_both Covered
        (acquire blank_order_node s.pool_config.historical_capacity s.order_pool).0 _ _ c
        (λ n. Covered-place_market e remaining n _ c)

  pub Covered-add_market :
      (e : NormalizedLobEvent) (s : PaperTradingSimulator) → Covered s → Covered (add_market e s)
  Covered-add_market e s c =
      let c' = Holds-cross_market Covers Covered-stable Covered-look e s c in
      if_both Covered (leb_ℤ (cross_market e s).0 (pos 0)) _ _ c'
        (Covered-rest_market e (cross_market e s).0 (cross_market e s).1 c')

  pub IsCovered-empty : (is_ask : Bool) → IsCovered is_ask H.empty []
  IsCovered-empty is_ask = record {
    descending = tt;
    covers = λ px live. ground (arith, live, H.find-empty {V = List ℕ} px);
  }

  pub init-Covered : (config : OrderPoolConfig) → Covered (init config)
  unfolding init
  init-Covered config = (IsCovered-empty false, IsCovered-empty true)
