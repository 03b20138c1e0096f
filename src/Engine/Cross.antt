-- ===== src/Engine/Cross.antt =====
-- The trades of an order that runs into the other side of the book: the matching loops of `on_add`
-- and `on_aggressive_trade`. A loop over price levels takes as fuel one round for each price in the
-- heap and one more, since a round that does not end the loop pops a price; the loop over paper levels
-- takes a round for each lot, since a round that does not end it trades one.
use lobsim.Base.{
  ℕ, zero, suc, ℤ, pos, ◌+ℤ◌, ◌-ℤ◌, neg_ℤ, min_ℤ, ltb_ℤ, leb_ℤ, ◌==ℤ◌, Bool, true, false, Option,
  none, some, List, [], ◌∷◌, HashMap, int_eq, is_empty, if◌then◌else◌,
}
use lobsim.Base.Heap.{pop}
use lobsim.Types.{Side, opposite, is_buy, NormalizedLobEvent, on_fill, FillRecord}
use lobsim.Pool.{release}
use lobsim.Engine.State.{
  PaperTradingSimulator, OrderNode, blank_order_node, book, with_book, heap, with_heap, queue_at,
  order_node, emit,
}
use lobsim.Engine.Prices.{best_opposite_price, best_paper_opposite_price, pop_price}
use lobsim.Engine.PaperLevel.{adjust_market_at}
use lobsim.Engine.PaperTrade.{apply_paper_trade_at_level, trade_against_paper_level}
use lobsim.Engine.Cancel.{set_qty}

-- `isBid ? (price >= best) : (price <= best)`.
abbrev pub crosses : NormalizedLobEvent → ℤ → Bool
crosses e best = if is_buy e.side then leb_ℤ best e.price_ticks else leb_ℤ e.price_ticks best

abbrev pub crosses_best : NormalizedLobEvent → Option ℤ → Bool
crosses_best e none = false
crosses_best e (some px) = crosses e px

abbrev pub book_fill : ℕ → ℤ → ℤ → OrderNode → NormalizedLobEvent → FillRecord
book_fill seq px take node e = record {
  seq = seq;
  ts_exchange = e.ts_exchange;
  ts_received = e.ts_received;
  price_ticks = px;
  qty_lots = take;
  maker_side = opposite e.side;
  maker_order_id = node.order_id;
  maker_trader_id = node.trader_id;
  maker_source = node.source;
  taker_side = e.side;
  taker_order_id = e.order_id;
  taker_trader_id = e.trader_id;
  taker_source = e.update_source;
  book_key = e.symbol_id;
}

module _ ⦃H : HashMap⦄ where
  -- One order of a level under a strategy's order: the lots that are left, and the state.
  abbrev pub view_node :
      NormalizedLobEvent → ℤ → ℕ → ℤ × PaperTradingSimulator → ℤ × PaperTradingSimulator
  view_node e px n (remaining, s) =
      let node = order_node s n in
      let take = min_ℤ node.qty remaining in
      if leb_ℤ node.qty (pos 0)
      then (remaining, s)
      else (remaining -ℤ take, emit (on_fill (book_fill s.seq px take node e)) s)

  -- `for (const auto& node : levelList)`: the book is read, and not changed.
  unfoldable pub view_level :
      NormalizedLobEvent → ℤ → List ℕ → ℤ × PaperTradingSimulator → ℤ × PaperTradingSimulator
  view_level e px [] r = r
  view_level e px (n ∷ ns) r =
      if leb_ℤ r.0 (pos 0) then r else view_level e px ns (view_node e px n r)

  -- A round of the loop over the levels for a strategy's order: whether the loop ends, the heap copy,
  -- and the lots and the state. `limit` is the test `stillCrosses`; an aggressive trade has none.
  abbrev view_queue :
      NormalizedLobEvent
      → ℤ
      → List ℕ
      → List ℤ
      → ℤ × PaperTradingSimulator
      → Bool × List ℤ × (ℤ × PaperTradingSimulator)
  view_queue e px [] h r = (false, pop h, r)
  view_queue e px (n ∷ ns) h r = (false, pop_price (is_buy e.side) px h, view_level e px (n ∷ ns) r)

  abbrev view_best :
      (ℤ → Bool)
      → NormalizedLobEvent
      → Option ℤ
      → List ℤ
      → ℤ × PaperTradingSimulator
      → Bool × List ℤ × (ℤ × PaperTradingSimulator)
  view_best limit e none h r = (true, h, r)
  view_best limit e (some px) h r =
      if limit px
      then view_queue e px (queue_at px (book (opposite e.side) r.1)) h r
      else (true, h, r)

  abbrev pub view_round :
      (ℤ → Bool)
      → NormalizedLobEvent
      → List ℤ
      → ℤ × PaperTradingSimulator
      → Bool × List ℤ × (ℤ × PaperTradingSimulator)
  view_round limit e h r =
      let (best, h') = best_opposite_price (is_buy e.side) (book (opposite e.side) r.1) h in
      if leb_ℤ r.0 (pos 0) then (true, h, r) else view_best limit e best h' r

  -- The loop, on a copy of the heap.
  unfoldable pub view_levels :
      ℕ
      → (ℤ → Bool)
      → NormalizedLobEvent
      → List ℤ
      → ℤ × PaperTradingSimulator
      → ℤ × PaperTradingSimulator
  view_levels zero limit e h r = r
  view_levels (suc fuel) limit e h r =
      let (ends, h', r') = view_round limit e h r in
      let rest = view_levels fuel limit e h' r' in if ends then r' else rest

  -- The variables of the matching loop at one level; `queue` is what the loop leaves of the level.
  pub record Matching : Type 0 where
    pub remaining : ℤ
    pub traded_at_level : ℤ
    pub market_deltas : List (ℕ × ℤ)
    pub queue : List ℕ
    pub sim : PaperTradingSimulator

  -- `order_info.erase`, `levelList.erase`, `order_pool_.release`.
  abbrev pub retire : ℕ → PaperTradingSimulator → PaperTradingSimulator
  retire n s = record s {
    order_info = H.erase (order_node s n).order_id s.order_info;
    order_pool = release blank_order_node (some n) s.order_pool;
  }

  -- One order of the level: whether it stays, and the variables.
  abbrev pub match_node : NormalizedLobEvent → ℤ → ℕ → Matching → Bool × Matching
  match_node e px n m =
      let node = order_node m.sim n in
      let take = min_ℤ node.qty m.remaining in
      let told = emit (on_fill (book_fill m.sim.seq px take node e)) m.sim in
      let left = node.qty -ℤ take in
      let taken = set_qty n left told in
      let m' = record m {
        remaining = m.remaining -ℤ take;
        traded_at_level = m.traded_at_level +ℤ take;
        market_deltas = (node.arrival_seq, neg_ℤ take) ∷ m.market_deltas;
        sim = if left ==ℤ pos 0 then retire n taken else taken;
      } in
      if leb_ℤ node.qty (pos 0)
      then (false, record m { sim = retire n m.sim })
      else (if left ==ℤ pos 0 then false else true, m')

  -- `while (remaining > 0 && itNode != levelList.end())`.
  unfoldable pub match_queue : NormalizedLobEvent → ℤ → List ℕ → Matching → Matching
  match_queue e px [] m = record m { queue = [] }
  match_queue e px (n ∷ ns) m =
      let (kept, m') = match_node e px n m in
      let rest = match_queue e px ns m' in
      if leb_ℤ m.remaining (pos 0)
      then record m { queue = n ∷ ns }
      else record rest { queue = if kept then n ∷ rest.queue else rest.queue }

  unfoldable pub adjust_all :
      Side → ℤ → List (ℕ × ℤ) → PaperTradingSimulator → PaperTradingSimulator
  adjust_all side px [] s = s
  adjust_all side px ((seq, delta) ∷ ds) s =
      adjust_market_at side px seq delta (adjust_all side px ds s)

  -- The level after the loop, in the book.
  abbrev pub put_queue : Side → ℤ → List ℕ → PaperTradingSimulator → PaperTradingSimulator
  put_queue side px q s =
      with_book side (if is_empty q then H.erase px (book side s) else H.assign px q (book side s))
        s

  -- One level for an order of the market: the lots that are left, and the state.
  unfoldable pub match_level :
      NormalizedLobEvent → ℤ → List ℕ → ℤ × PaperTradingSimulator → ℤ × PaperTradingSimulator
  unfolding match_queue adjust_all
  match_level e px queue (remaining, s) =
      let maker_side = opposite e.side in
      let m = match_queue e px queue (record {
        remaining = remaining;
        traded_at_level = pos 0;
        market_deltas = [];
        queue = [];
        sim = s;
      }) in
      let s' =
        if ltb_ℤ (pos 0) m.traded_at_level
        then adjust_all maker_side px m.market_deltas
            (apply_paper_trade_at_level maker_side px m.traded_at_level e m.sim)
        else m.sim in
      (m.remaining, put_queue maker_side px m.queue s')

  -- A round of the loop over the levels for an order of the market: whether the loop ends, and the
  -- lots and the state.
  abbrev pub match_found :
      NormalizedLobEvent → ℤ → List ℕ → ℤ × PaperTradingSimulator → ℤ × PaperTradingSimulator
  match_found e px [] r = r
  match_found e px (n ∷ ns) r = match_level e px (n ∷ ns) r

  abbrev pub match_best :
      NormalizedLobEvent → Option ℤ → ℤ × PaperTradingSimulator → Bool × (ℤ × PaperTradingSimulator)
  match_best e none r = (true, r)
  match_best e (some px) r =
      if crosses e px
      then (false, match_found e px (queue_at px (book (opposite e.side) r.1)) r)
      else (true, r)

  -- `best_opposite_price` on the heap itself.
  abbrev pub look : NormalizedLobEvent → PaperTradingSimulator → Option ℤ × PaperTradingSimulator
  look e s =
      let (best, h) =
        best_opposite_price (is_buy e.side) (book (opposite e.side) s) (heap (opposite e.side) s) in
      (best, with_heap (opposite e.side) h s)

  abbrev pub match_round :
      NormalizedLobEvent → ℤ × PaperTradingSimulator → Bool × (ℤ × PaperTradingSimulator)
  match_round e r =
      let (best, s) = look e r.1 in
      if leb_ℤ r.0 (pos 0) then (true, r) else match_best e best (r.0, s)

  unfoldable pub match_levels :
      ℕ → NormalizedLobEvent → ℤ × PaperTradingSimulator → ℤ × PaperTradingSimulator
  match_levels zero e r = r
  match_levels (suc fuel) e r =
      let (ends, r') = match_round e r in
      let rest = match_levels fuel e r' in if ends then r' else rest

  -- A round of the loop over the paper levels of the other side.
  abbrev pub take_best :
      (ℤ → Bool)
      → NormalizedLobEvent
      → Option ℤ
      → ℤ × PaperTradingSimulator
      → Bool × (ℤ × PaperTradingSimulator)
  take_best limit e none r = (true, r)
  take_best limit e (some px) r =
      let (traded, s) = trade_against_paper_level (opposite e.side) px r.0 e r.1 in
      if limit px
      then if leb_ℤ traded (pos 0) then (true, (r.0, s)) else (false, (r.0 -ℤ traded, s))
      else (true, r)

  abbrev pub take_round :
      (ℤ → Bool)
      → NormalizedLobEvent
      → ℤ × PaperTradingSimulator
      → Bool × (ℤ × PaperTradingSimulator)
  take_round limit e r =
      if leb_ℤ r.0 (pos 0)
      then (true, r)
      else take_best limit e (best_paper_opposite_price (opposite e.side) r.1) r

  unfoldable pub take_paper_levels :
      ℕ → (ℤ → Bool) → NormalizedLobEvent → ℤ × PaperTradingSimulator → ℤ × PaperTradingSimulator
  take_paper_levels zero limit e r = r
  take_paper_levels (suc fuel) limit e r =
      let (ends, r') = take_round limit e r in
      let rest = take_paper_levels fuel limit e r' in if ends then r' else rest
