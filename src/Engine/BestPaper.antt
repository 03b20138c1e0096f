-- ===== src/Engine/BestPaper.antt =====
-- `best_paper_opposite_price` against its specification.
use lobsim.Base.{
  int_eq, HashMap, ==ℤ_iff, Bool, Distinct, List, Option, [], arith, false, inl, leb_ℤ, lookup,
  none, not, pos, some, true, ℤ, ◌==ℤ◌, ◌∷◌, ◌≡◌, ◌⊎◌, refl,
}
use lobsim.Engine.BestPrice.{no_worse}
use lobsim.Engine.Prices.{better_paper_price, scan_paper_levels, best_paper_opposite_price}
use lobsim.Engine.State.{PaperOrderLevel, PaperTradingSimulator, paper_levels}
use lobsim.Types.{Side, buy, is_buy, sell}

module _ ⦃H : HashMap⦄ where
  abbrev is_counted : Option PaperOrderLevel → Bool
  is_counted none = false
  is_counted (some level) = not (leb_ℤ level.queued_lots (pos 0))

  -- The counter `queued_lots` of the price's level is positive. It may still count lots of orders that
  -- are gone, and the code asks for no more.
  abbrev counts_lots : H.Map ℤ PaperOrderLevel → ℤ → Bool
  counts_lots m px = is_counted (H.find px m)

  -- What the best price of the paper levels is.
  abbrev pub IsBestPaper : Bool → H.Map ℤ PaperOrderLevel → Option ℤ → Type 0
  IsBestPaper is_ask m none = (q : ℤ) → counts_lots m q ≡ false
  IsBestPaper is_ask m (some px) =
      (counts_lots m px ≡ true) × ((q : ℤ) → counts_lots m q ≡ true → no_worse is_ask px q ≡ true)

  abbrev no_worse_than : Bool → Option ℤ → ℤ → Bool
  no_worse_than is_ask none q = false
  no_worse_than is_ask (some px) q = no_worse is_ask px q

  abbrev is_at : Option ℤ → ℤ → Bool
  is_at none q = false
  is_at (some px) q = px ==ℤ q

  better_paper_price-no_worse :
      (is_ask : Bool) (best : Option ℤ) (e : ℤ × PaperOrderLevel) (q : ℤ)
      → no_worse_than is_ask best q ≡ true
      → no_worse_than is_ask (better_paper_price is_ask best e) q ≡ true
  better_paper_price-no_worse is_ask none e q h = ground arith
  better_paper_price-no_worse true (some b) e q h = ground arith
  better_paper_price-no_worse false (some b) e q h = ground arith

  better_paper_price-takes :
      (is_ask : Bool) (best : Option ℤ) (e : ℤ × PaperOrderLevel)
      → is_counted (some e.1) ≡ true
      → no_worse_than is_ask (better_paper_price is_ask best e) e.0 ≡ true
  better_paper_price-takes true none e h = ground arith
  better_paper_price-takes false none e h = ground arith
  better_paper_price-takes true (some b) e h = ground arith
  better_paper_price-takes false (some b) e h = ground arith

  better_paper_price-is_at :
      (is_ask : Bool) (best : Option ℤ) (e : ℤ × PaperOrderLevel) (q : ℤ)
      → is_at (better_paper_price is_ask best e) q ≡ true
      → (is_at best q ≡ true) ⊎ ((e.0 ≡ q) × (is_counted (some e.1) ≡ true))
  better_paper_price-is_at is_ask none e q h = ground (arith, ==ℤ_iff e.0 q)
  better_paper_price-is_at is_ask (some b) e q h = ground (arith, ==ℤ_iff e.0 q)

  -- The price only gets better along the walk.
  scan-no_worse :
      (is_ask : Bool) (best : Option ℤ) (es : List (ℤ × PaperOrderLevel)) (q : ℤ)
      → no_worse_than is_ask best q ≡ true
      → no_worse_than is_ask (scan_paper_levels is_ask best es) q ≡ true
  unfolding scan_paper_levels
  scan-no_worse is_ask best [] q h = h
  scan-no_worse is_ask best (e ∷ es) q h =
      scan-no_worse is_ask (better_paper_price is_ask best e) es q
        (better_paper_price-no_worse is_ask best e q h)

  scan-takes :
      (is_ask : Bool) (best : Option ℤ) (es : List (ℤ × PaperOrderLevel)) (q : ℤ)
      → is_counted (lookup q es) ≡ true
      → no_worse_than is_ask (scan_paper_levels is_ask best es) q ≡ true
  unfolding scan_paper_levels
  scan-takes is_ask best [] q h = ground arith
  scan-takes is_ask best ((px, level) ∷ es) q h =
      let best' = better_paper_price is_ask best (px, level) in
      ground (
        arith,
        h,
        ==ℤ_iff px q,
        scan-takes is_ask best' es q,
        scan-no_worse is_ask best' es q,
        better_paper_price-takes is_ask best (px, level),
      )

  scan-is_at :
      (is_ask : Bool) (best : Option ℤ) (es : List (ℤ × PaperOrderLevel)) (q : ℤ)
      → Distinct es
      → is_at (scan_paper_levels is_ask best es) q ≡ true
      → (is_at best q ≡ true) ⊎ (is_counted (lookup q es) ≡ true)
  unfolding scan_paper_levels
  scan-is_at is_ask best [] q d h = inl h
  scan-is_at is_ask best ((px, level) ∷ es) q d h = ground (
    arith,
    ==ℤ_iff px q,
    d.0,
    scan-is_at is_ask (better_paper_price is_ask best (px, level)) es q d.1 h,
    better_paper_price-is_at is_ask best (px, level) q,
  )

  abbrev is_ask_of : Side → Bool
  is_ask_of side = elim side [ buy ↦ false | sell ↦ true ]

  IsBestPaper-scan :
      (side : Side) (m : H.Map ℤ PaperOrderLevel) (best : Option ℤ)
      → scan_paper_levels (is_ask_of side) none (H.entries m) ≡ best
      → IsBestPaper (is_ask_of side) m best
  IsBestPaper-scan side m none found = λ q.
      ground (arith, found, scan-takes (is_ask_of side) none (H.entries m) q, H.lookup-entries q m)
  IsBestPaper-scan side m (some px) found = (
    ground (
      arith,
      found,
      ==ℤ_iff px px,
      scan-is_at (is_ask_of side) none (H.entries m) px (H.entries-Distinct m),
      H.lookup-entries px m,
    ),
    λ q l.
        ground
          (arith, found, l, scan-takes (is_ask_of side) none (H.entries m) q, H.lookup-entries q m),
  )

  -- `best_paper_opposite_price` returns the best of all prices whose paper level of the side has a positive
  -- counter `queued_lots`, or nothing if no level has one, whatever the order in which the map lists its
  -- levels. It is about the counter, not about the orders of a level.
  pub best_paper_opposite_price-IsBestPaper :
      (side : Side) (s : PaperTradingSimulator)
      → IsBestPaper (not (is_buy side)) (paper_levels side s) (best_paper_opposite_price side s)
  unfolding best_paper_opposite_price
  best_paper_opposite_price-IsBestPaper buy s = IsBestPaper-scan buy s.paper_bids _ refl
  best_paper_opposite_price-IsBestPaper sell s = IsBestPaper-scan sell s.paper_asks _ refl
