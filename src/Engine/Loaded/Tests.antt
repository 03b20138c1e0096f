-- ===== src/Engine/Loaded/Tests.antt =====
-- Snapshots of three rows, loaded over a book that has an order.
use lobsim.Base.{
  ◌≤◌, assoc_map, int_eq, ℤ, pos, List, [], ◌∷◌, none, some, ◌≡◌, refl, arith, length,
}
use lobsim.Types.{Side, buy, sell}
use lobsim.Engine.State.{PaperTradingSimulator, init}
use lobsim.Pool.{acquire, reset}
use lobsim.Engine.Init.{L2Row, l2_loop, clear_state, init_from_l2_snapshot, l2_rows}
use lobsim.Engine.Query.{depth_at}
use lobsim.Engine.Loaded.{row_depth, AllNew}
use lobsim.Engine.Loaded.Depth.{init_from_l2_snapshot-depth_at}
use lobsim.Engine.Tests.{config}

abbrev sides : List Side
sides = buy ∷ sell ∷ buy ∷ []

abbrev prices : List ℤ
prices = pos 100 ∷ pos 101 ∷ pos 99 ∷ []

abbrev same_prices : List ℤ
same_prices = pos 100 ∷ pos 101 ∷ pos 100 ∷ []

abbrev quantities : List ℤ
quantities = pos 5 ∷ pos 7 ∷ pos 3 ∷ []

abbrev quoted : PaperTradingSimulator
quoted = (init_from_l2_snapshot (buy ∷ []) (pos 98 ∷ []) (pos 1 ∷ []) (init config)).1

abbrev row : Side → ℤ → ℤ → L2Row
row side price quantity = record { side = side; price = price; quantity = quantity }

all_new : AllNew [] (l2_rows sides prices quantities)
unfolding l2_rows
all_new = (refl, (refl, (refl, tt)))

few : length (l2_rows sides prices quantities) ≤ quoted.pool_config.historical_capacity
unfolding init_from_l2_snapshot l2_loop l2_rows clear_state acquire reset init
few = ground arith

init_from_l2_snapshot-depth_at_example :
    let r = init_from_l2_snapshot sides prices quantities quoted in
    (r.0 ≡ none)
    × ((side : Side) (px : ℤ)
        → depth_at side px r.1 ≡ row_depth side px (l2_rows sides prices quantities))
init_from_l2_snapshot-depth_at_example =
    init_from_l2_snapshot-depth_at sides prices quantities quoted refl refl all_new few

read_back :
    depth_at buy (pos 99) (init_from_l2_snapshot sides prices quantities quoted).1 ≡ some (pos 3)
unfolding l2_rows
read_back = init_from_l2_snapshot-depth_at_example.1 buy (pos 99)
