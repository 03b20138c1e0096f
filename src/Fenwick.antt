-- ===== src/Fenwick.antt =====
-- `FenwickTree` of cpp/include/lobsim/paper_trading_simulator.hpp: prefix sums of lots in a binary
-- indexed tree. Sizes and indices are `std::size_t`; a loop takes as fuel the number of rounds that
-- its index can make, since `i & -i` is at least 1.
pub mod LowBit
pub mod Prefix
pub mod Reached
pub mod Sums
mod Tests
use Prim.Native.Nat.{bit_and}
use lobsim.Base.{
  ℕ, zero, suc, ◌+◌, ◌-◌, ◌^◌, ◌%◌, ℤ, pos, ◌+ℤ◌, ◌-ℤ◌, true, false, List, [], ◌∷◌, ◌++◌, length,
  get_or, set, replicate, leb, ltb, ◌==ℕ◌, if◌then◌else◌,
}

pub record FenwickTree : Type 0 where
  pub tree : List ℤ

abbrev pub empty_tree : FenwickTree
empty_tree = record { tree = [] }

-- `i & -i` on `std::size_t`.
pub low_bit : ℕ → ℕ
low_bit i = bit_and i ((2 ^ 64 - i) % 2 ^ 64)

-- `tree[i]`.
abbrev pub at : List ℤ → ℕ → ℤ
at t i = get_or t i (pos 0)

sum_loop : ℕ → List ℤ → ℕ → ℤ → ℤ
sum_loop zero t i res = res
sum_loop (suc fuel) t i res = elim (ltb 0 i) [
  | true ↦ sum_loop fuel t (i - low_bit i) (res +ℤ at t i)
  | false ↦ res
]

pub sum : ℕ → FenwickTree → ℤ
unfolding sum_loop low_bit
sum count t = sum_loop count t.tree count (pos 0)

pub add_loop : ℕ → ℕ → ℤ → List ℤ → List ℤ
add_loop zero i delta t = t
add_loop (suc fuel) i delta t = elim (ltb i (length t)) [
  | true ↦ add_loop fuel (i + low_bit i) delta (set t i (at t i +ℤ delta))
  | false ↦ t
]

pub add : ℕ → ℤ → FenwickTree → FenwickTree
unfolding add_loop low_bit
add index delta t = record { tree = add_loop (length t.tree) (index + 1) delta t.tree }

-- One round of the loop that fills the new entries.
abbrev fill_entry : ℕ → FenwickTree → FenwickTree
fill_entry i t =
    if i ==ℕ 0 then t else record { tree = set t.tree i (sum (i - 1) t -ℤ sum (i - low_bit i) t) }

pub fill_loop : ℕ → ℕ → FenwickTree → FenwickTree
fill_loop zero i t = t
fill_loop (suc rounds) i t = fill_loop rounds (i + 1) (fill_entry i t)

pub ensure_size : ℕ → FenwickTree → FenwickTree
unfolding fill_loop sum low_bit
ensure_size n t =
    if leb (n + 1) (length t.tree)
    then t
    else fill_loop (n + 1 - length t.tree) (length t.tree)
        (record { tree = t.tree ++ replicate (n + 1 - length t.tree) (pos 0) })

-- The calls of a tree.
pub data Call : Type 0 where
  grow_to : ℕ → Call
  put : ℕ → ℤ → Call

-- The calls, the last one first.
pub run_calls : List Call → FenwickTree
unfolding ensure_size add
run_calls [] = empty_tree
run_calls (grow_to n ∷ cs) = ensure_size n (run_calls cs)
run_calls (put index delta ∷ cs) = add index delta (run_calls cs)
