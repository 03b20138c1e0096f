-- ===== src/Engine/Query.antt =====
-- The queries: `depth_at` and `l2_top_n`. (`get_best_price_ticks` is in Engine/Prices.)
use lobsim.Base.{
  ℕ, ℤ, pos, ◌+ℤ◌, ltb_ℤ, leb_ℤ, Bool, false, Option, none, some, List, [], ◌∷◌, HashMap, int_eq,
  length, ltb, ◌==ℕ◌, is_empty, ◌||◌, if◌then◌else◌,
}
use lobsim.Base.Heap.{push, pop}
use lobsim.Types.{Side, is_buy}
use lobsim.Engine.State.{PaperTradingSimulator, book, order_node, OrderPriorityQueue}

-- A price and its total liquidity.
abbrev pub Level : Type 0
Level = ℤ × ℤ

-- The comparator of the heap, which keeps the worst price on top.
abbrev pub better_price : Bool → Level → Level → Bool
better_price is_bid a b = if is_bid then ltb_ℤ b.0 a.0 else ltb_ℤ a.0 b.0

abbrev pub beats_top : Bool → Level → List Level → Bool
beats_top is_bid lvl [] = false
beats_top is_bid lvl (t ∷ ts) = better_price is_bid lvl t

-- One level under the loop of `l2_top_n`.
abbrev pub keep_level : Bool → ℕ → Level → List Level → List Level
keep_level is_bid n lvl h =
    if leb_ℤ lvl.1 (pos 0)
    then h
    else if ltb (length h) n
    then push (better_price is_bid) lvl h
    else if beats_top is_bid lvl h
    then push (better_price is_bid) lvl (pop h)
    else h

unfoldable pub keep_levels : Bool → ℕ → List Level → List Level → List Level
keep_levels is_bid n [] h = h
keep_levels is_bid n (l ∷ ls) h = keep_levels is_bid n ls (keep_level is_bid n l h)

-- `std::sort`, as insertion: for `less a b`, `a` comes before `b`.
unfoldable pub sort : (Level → Level → Bool) → List Level → List Level
sort less [] = []
sort less (x ∷ xs) = push (λ a b. less b a) x (sort less xs)

module _ ⦃H : HashMap⦄ where
  -- `std::accumulate` of the lots of a queue.
  unfoldable pub accumulate : PaperTradingSimulator → ℤ → OrderPriorityQueue → ℤ
  accumulate s acc [] = acc
  accumulate s acc (n ∷ ns) = accumulate s (acc +ℤ (order_node s n).qty) ns

  unfoldable pub depth_at : Side → ℤ → PaperTradingSimulator → Option ℤ
  unfolding accumulate
  depth_at side px s = elim (H.find px (book side s)) [
    | none ↦ none
    | some queue ↦ some (accumulate s (pos 0) queue)
  ]

  unfoldable pub level_depths : PaperTradingSimulator → List (ℤ × OrderPriorityQueue) → List Level
  level_depths s [] = []
  level_depths s ((px, queue) ∷ es) = (px, accumulate s (pos 0) queue) ∷ level_depths s es

  unfoldable pub l2_top_n : Side → ℕ → PaperTradingSimulator → List Level
  unfolding accumulate level_depths keep_levels sort
  l2_top_n side n s =
      if is_empty (H.entries (book side s)) || (n ==ℕ 0)
      then []
      else sort (better_price (is_buy side))
          (keep_levels (is_buy side) n (level_depths s (H.entries (book side s))) [])
