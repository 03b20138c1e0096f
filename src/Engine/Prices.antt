-- ===== src/Engine/Prices.antt =====
-- The best price of the other side: `best_opposite_price`, `best_paper_opposite_price`,
-- `get_best_price_ticks` and the loops that drop stale prices from a heap.
use lobsim.Base.{
  ℤ, pos, neg_ℤ, ltb_ℤ, leb_ℤ, ◌==ℤ◌, Bool, true, false, not, Option, none, some, List, [], ◌∷◌,
  HashMap, int_eq, is_empty, if◌then◌else◌,
}
use lobsim.Base.Heap.{push}
use lobsim.Types.{Side, sell, buy}
use lobsim.Engine.State.{
  PaperTradingSimulator, PaperOrderLevel, Book, book, heap, with_heap, queue_at, paper_levels,
}

-- Both heaps are max heaps, so an ask is stored with its sign reversed.
abbrev pub encode : Bool → ℤ → ℤ
encode is_ask px = if is_ask then neg_ℤ px else px

abbrev pub decode : Bool → ℤ → ℤ
decode is_ask x = if is_ask then neg_ℤ x else x

-- `std::priority_queue<std::int64_t>::push`.
abbrev pub push_price : ℤ → List ℤ → List ℤ
push_price = push ltb_ℤ

-- Pop every copy of `px` from the top.
unfoldable pub pop_price : Bool → ℤ → List ℤ → List ℤ
pop_price is_ask px [] = []
pop_price is_ask px (x ∷ xs) = if decode is_ask x ==ℤ px then pop_price is_ask px xs else x ∷ xs

module _ ⦃H : HashMap⦄ where
  -- The level is there and not empty.
  abbrev pub is_live : Book → ℤ → Bool
  is_live b px = not (is_empty (queue_at px b))

  -- The price, and the heap with the stale prices above it popped.
  unfoldable pub best_opposite_price : Bool → Book → List ℤ → Option ℤ × List ℤ
  best_opposite_price is_ask b [] = (none, [])
  best_opposite_price is_ask b (x ∷ xs) =
      if is_live b (decode is_ask x)
      then (some (decode is_ask x), x ∷ xs)
      else best_opposite_price is_ask b xs

  -- One round of the loop over the paper levels.
  abbrev pub better_paper_price : Bool → Option ℤ → ℤ × PaperOrderLevel → Option ℤ
  better_paper_price is_ask best (px, level) =
      if leb_ℤ level.queued_lots (pos 0) then best else elim best [
        | none ↦ some px
        | some b ↦ if (if is_ask then ltb_ℤ px b else ltb_ℤ b px) then some px else some b
      ]

  unfoldable pub scan_paper_levels : Bool → Option ℤ → List (ℤ × PaperOrderLevel) → Option ℤ
  scan_paper_levels is_ask best [] = best
  scan_paper_levels is_ask best (e ∷ es) =
      scan_paper_levels is_ask (better_paper_price is_ask best e) es

  unfoldable pub best_paper_opposite_price : Side → PaperTradingSimulator → Option ℤ
  unfolding scan_paper_levels
  best_paper_opposite_price side s =
      scan_paper_levels (elim side [ buy ↦ false | sell ↦ true ]) none
        (H.entries (paper_levels side s))

  -- The heaps are `mutable`: the query pops stale prices too.
  unfoldable pub get_best_price_ticks :
      Side → PaperTradingSimulator → Option ℤ × PaperTradingSimulator
  unfolding best_opposite_price
  get_best_price_ticks side s =
      let (best, h) =
        best_opposite_price (elim side [ buy ↦ false | sell ↦ true ]) (book side s) (heap side s) in
      (best, with_heap side h s)
