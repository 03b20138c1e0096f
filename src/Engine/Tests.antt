-- ===== src/Engine/Tests.antt =====
-- Runs of the simulator on short histories, over the entry lists of Base/Assoc.
use lobsim.Base.{
  int_eq, assoc_map, ℤ, pos, negsuc, List, [], ◌∷◌, some, arith, length, min_ℤ, neg_ℤ, refl, suc,
  true, ◌+ℤ◌, ◌-ℤ◌, ◌<ℤ◌, ◌<◌, ◌≡◌, none, ◌≤ℤ◌, false, ◌⊎◌, ◌≤◌,
}
use lobsim.Pool.{size}
use lobsim.Engine.PaperTrade.{start}
use lobsim.Engine.PaperLevel.{ensure_paper_level}
use lobsim.Engine.Add.{rest_paper}
use lobsim.Types.{
  Side, buy, sell, UpdateType, UpdateSource, historical, strategy, add, NormalizedLobEvent,
  aggressive_trade, next_u64,
}
use lobsim.Engine.State.{
  PaperTradingSimulator, OrderPoolConfig, init, PaperOrder, blank_level, open_order, paper_node,
}
use lobsim.Engine.Update.{replay, set_log_sink, dispatch, update}
use lobsim.Engine.Add.{on_add, rest_market, aggress, cross_paper}
use lobsim.Engine.BestPrice.{IsBest, IsCovered, best_opposite_price-IsBest}
use lobsim.Engine.Covered.{Covered, init-Covered}
use lobsim.Engine.Covered.Update.{replay-Covered, update-Covered}
use lobsim.Engine.Cross.{
  adjust_all, crosses, match_level, match_levels, match_queue, take_paper_levels, Matching,
}
use lobsim.Engine.Isolation.{market, market-update}
use lobsim.Engine.Matching.{used_up, prices_left, prices_left_le}
use lobsim.Engine.Uncrossed.{match_levels-NoCross}
use lobsim.Engine.PaperTrade.{apply_paper_trade_at_level, Walk, taking_round}
use lobsim.Engine.Prices.{
  best_opposite_price, best_paper_opposite_price, get_best_price_ticks, is_live,
}
use lobsim.Engine.Uncrossed.Update.{replay-Uncrossed}
use lobsim.Pool.{acquire}
use lobsim.Engine.Reachable.{Reachable, get_best_price_ticks-IsBest, started, updated}
use lobsim.Engine.BestPaper.{IsBestPaper, best_paper_opposite_price-IsBestPaper}
use lobsim.Engine.Fills.Paper.{aggress-Balanced, cross_paper-Balanced}
use lobsim.Engine.QueuedLots.{taking_round-queued_lots}
use lobsim.Engine.Seq.Update.{update-seq}
use lobsim.Engine.Query.{l2_top_n, depth_at}
use lobsim.Engine.TopLevels.{All, BestFirst, IsLevel, l2_top_n-BestFirst}
use lobsim.Engine.TopLevels.Complete.{Placed, l2_top_n-Placed}
use lobsim.Engine.Conservation.{queue_lots}
use lobsim.Engine.Conservation.Matched.{IsSuffix, match_queue-IsSuffix, match_queue-queue_lots}
use lobsim.Engine.Fills.{match_queue-Balanced, told_lots}

abbrev pub event : Side → UpdateType → UpdateSource → ℤ → ℤ → ℤ → NormalizedLobEvent
event side type source price qty id = record {
  ts_exchange = pos 0;
  ts_received = pos 1;
  side = side;
  update_type = type;
  price_ticks = price;
  quantity_lots = qty;
  order_id = id;
  trader_id = negsuc 0;
  aggressor_id = negsuc 1;
  update_source = source;
  symbol_id = "BTC";
}

abbrev pub config : OrderPoolConfig
config = record { historical_capacity = 8; paper_capacity = 4 }

abbrev history : List NormalizedLobEvent
history =
    event sell add historical (pos 101) (pos 5) (pos 1)
    ∷ event sell add historical (pos 101) (pos 7) (pos 2)
    ∷ event sell add historical (pos 102) (pos 9) (pos 3)
    ∷ event sell add strategy (pos 101) (pos 4) (pos 10)
    ∷ event buy add historical (pos 101) (pos 14) (pos 4)
    ∷ []

abbrev after : PaperTradingSimulator
after = replay history (set_log_sink (some []) (init config))

-- Two quotes, an ask that is traded away in part, and a strategy's bid.
abbrev pub quotes : List NormalizedLobEvent
quotes =
    event buy add historical (pos 100) (pos 5) (pos 1)
    ∷ event sell add historical (pos 101) (pos 7) (pos 2)
    ∷ event buy add historical (pos 101) (pos 3) (pos 3)
    ∷ []

abbrev quoted : PaperTradingSimulator
quoted = replay quotes (init config)

abbrev pub buyer : NormalizedLobEvent
buyer = event buy add historical (pos 101) (pos 2) (pos 5)

quoted-Covered : Covered quoted
quoted-Covered = replay-Covered quotes (init config) (init-Covered config)

live_bid : is_live quoted.bids (pos 100) ≡ true
unfolding replay update dispatch on_add rest_market init acquire best_opposite_price match_levels
    match_level match_queue adjust_all take_paper_levels best_paper_opposite_price neg_ℤ ◌-ℤ◌ min_ℤ
    ◌+ℤ◌ apply_paper_trade_at_level
live_bid = refl

live_ask : is_live quoted.asks (pos 101) ≡ true
unfolding replay update dispatch on_add rest_market init acquire best_opposite_price match_levels
    match_level match_queue adjust_all take_paper_levels best_paper_opposite_price neg_ℤ ◌-ℤ◌ min_ℤ
    ◌+ℤ◌ apply_paper_trade_at_level
live_ask = refl

replay-Uncrossed_example : pos 100 <ℤ pos 101
replay-Uncrossed_example = replay-Uncrossed config quotes (pos 100) (pos 101) live_bid live_ask

quoted-Reachable : Reachable config quoted
unfolding replay
quoted-Reachable = updated _ _ (updated _ _ (updated _ _ started))

get_best_price_ticks-IsBest_example : IsBest true quoted.asks (get_best_price_ticks sell quoted).0
get_best_price_ticks-IsBest_example = get_best_price_ticks-IsBest config _ sell quoted-Reachable

market-update_example :
    market (update (event buy add strategy (pos 101) (pos 3) (pos 4)) quoted) ≡ market quoted
market-update_example =
    market-update (event buy add strategy (pos 101) (pos 3) (pos 4)) quoted refl (λ p. cc)

best_opposite_price-IsBest_example :
    IsBest true quoted.asks (best_opposite_price true quoted.asks quoted.asks_heap).0
    × IsCovered true quoted.asks (best_opposite_price true quoted.asks quoted.asks_heap).1
best_opposite_price-IsBest_example =
    best_opposite_price-IsBest true quoted.asks quoted.asks_heap quoted-Covered.1

update-Covered_example : Covered (update buyer quoted)
update-Covered_example = update-Covered buyer quoted quoted-Covered

few_prices : prices_left buyer quoted < suc (length quoted.asks_heap)
few_prices = omega (arith, prices_left_le buyer quoted)

match_levels-NoCross_example :
    let r' = match_levels (suc (length quoted.asks_heap)) buyer (pos 2, quoted) in
    (used_up r'.0 ≡ true) ⊎ ((q : ℤ) → is_live r'.1.asks q ≡ true → crosses buyer q ≡ false)
match_levels-NoCross_example =
    match_levels-NoCross (suc (length quoted.asks_heap)) buyer (pos 2, quoted) quoted-Covered
      few_prices

abbrev logged : PaperTradingSimulator
logged = record quoted { sink = some [] }

-- An aggressive trade of the strategy.
abbrev taker : NormalizedLobEvent
taker = event buy aggressive_trade strategy (pos 0) (pos 9) (pos 6)

aggress-Balanced_example :
    (told_lots (aggress taker logged).1.sink +ℤ (aggress taker logged).0
      ≡ told_lots logged.sink +ℤ taker.quantity_lots)
    × (pos 0 ≤ℤ (aggress taker logged).0)
aggress-Balanced_example = aggress-Balanced taker logged refl (omega arith)

-- A strategy's order that crosses the ask.
abbrev paper_buyer : NormalizedLobEvent
paper_buyer = event buy add strategy (pos 101) (pos 6) (pos 7)

cross_paper-Balanced_example :
    (told_lots (cross_paper paper_buyer logged).1.sink +ℤ (cross_paper paper_buyer logged).0
      ≡ told_lots logged.sink +ℤ paper_buyer.quantity_lots)
    × (pos 0 ≤ℤ (cross_paper paper_buyer logged).0)
cross_paper-Balanced_example = cross_paper-Balanced paper_buyer logged refl (omega arith)

update-seq_example : (update taker quoted).seq ≡ next_u64 (next_u64 quoted.seq)
update-seq_example = update-seq taker quoted

abbrev at_level : Matching
at_level = record {
  remaining = pos 2;
  traded_at_level = pos 0;
  market_deltas = [];
  queue = [];
  sim = logged;
}

match_queue-Balanced_example :
    let m' = match_queue buyer (pos 101) (1 ∷ []) at_level in
    (told_lots m'.sim.sink +ℤ m'.remaining ≡ told_lots logged.sink +ℤ pos 2)
    × (pos 0 ≤ℤ m'.remaining)
match_queue-Balanced_example =
    match_queue-Balanced buyer (pos 101) (1 ∷ []) at_level refl (omega arith)

logged_size : size logged.order_pool ≡ 2
unfolding replay update dispatch on_add rest_market init acquire best_opposite_price match_levels
    match_level match_queue adjust_all take_paper_levels best_paper_opposite_price neg_ℤ ◌-ℤ◌ min_ℤ
    ◌+ℤ◌ apply_paper_trade_at_level
logged_size = refl

in_pool : 1 < size logged.order_pool
in_pool = omega (arith, logged_size)

match_queue-queue_lots_example :
    let m' = match_queue buyer (pos 101) (1 ∷ []) at_level in
    queue_lots m'.sim m'.queue +ℤ (pos 2 -ℤ m'.remaining) ≡ queue_lots logged (1 ∷ [])
match_queue-queue_lots_example =
    match_queue-queue_lots buyer (pos 101) (1 ∷ []) at_level (refl, tt) (in_pool, tt)

match_queue-IsSuffix_example :
    IsSuffix (match_queue buyer (pos 101) (1 ∷ 2 ∷ []) at_level).queue (1 ∷ 2 ∷ [])
match_queue-IsSuffix_example = match_queue-IsSuffix buyer (pos 101) (1 ∷ 2 ∷ []) at_level

-- A strategy's ask that rests.
abbrev paper_ask : NormalizedLobEvent
paper_ask = event sell add strategy (pos 102) (pos 4) (pos 10)

abbrev offered : PaperTradingSimulator
offered = update paper_ask quoted

best_paper_opposite_price-IsBestPaper_example :
    IsBestPaper true offered.paper_asks (best_paper_opposite_price sell offered)
best_paper_opposite_price-IsBestPaper_example = best_paper_opposite_price-IsBestPaper sell offered

abbrev resting : PaperOrder
resting = record {
  original_event = paper_ask;
  status = open_order;
  remaining_qty = pos 4;
  placement_seq = 2;
  paper_index = 0;
}

abbrev walk : Walk
walk = start (pos 9) (record blank_level { queued_lots = pos 4; orders = 0 ∷ [] }) offered

resting_found : assoc_map.find (paper_node offered 0).order_id offered.paper_orders ≡ some resting
unfolding replay update dispatch on_add rest_market init acquire best_opposite_price match_levels
    match_level match_queue adjust_all take_paper_levels best_paper_opposite_price neg_ℤ ◌-ℤ◌ min_ℤ
    ◌+ℤ◌ apply_paper_trade_at_level rest_paper ensure_paper_level
resting_found = refl

taking_round-queued_lots_example :
    let w' = taking_round sell (pos 102) taker 0 walk in
    (w'.level.queued_lots ≡ pos 4)
    × (assoc_map.find (paper_node offered 0).order_id w'.sim.paper_orders ≡ none)
taking_round-queued_lots_example =
    taking_round-queued_lots sell (pos 102) taker 0 walk resting resting_found refl refl

l2_top_n-BestFirst_example :
    let top = l2_top_n sell 2 quoted in
    (length top ≤ 2) × BestFirst false top × All (IsLevel sell quoted) top
l2_top_n-BestFirst_example = l2_top_n-BestFirst sell 2 quoted

quoted_depth : depth_at sell (pos 101) quoted ≡ some (pos 4)
unfolding replay update dispatch on_add rest_market init acquire best_opposite_price match_levels
    match_level match_queue adjust_all take_paper_levels best_paper_opposite_price neg_ℤ ◌-ℤ◌ min_ℤ
    ◌+ℤ◌ apply_paper_trade_at_level depth_at
quoted_depth = refl

l2_top_n-Placed_example : Placed false 1 (pos 101, pos 4) (l2_top_n sell 1 quoted)
l2_top_n-Placed_example = l2_top_n-Placed sell 1 quoted (pos 101) (pos 4) quoted_depth refl
