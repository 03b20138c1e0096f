-- ===== src/Pool.antt =====
-- `NodePool` of cpp/include/lobsim/paper_trading_simulator.hpp: a vector of nodes that are handed out
-- by index. A node pointer is the node's place in `pool_`; the vector is reserved to its capacity, so
-- that a pointer stays good. The head of `free_list` is the back of the vector `free_list_`.
-- A queue is a list of pool indices kept by the simulator, and a node's auto-unlink hook is linked as
-- long as a queue holds its index: the simulator erases the index where the code erases or unlinks the
-- node, so the pool has nothing to do for `unlink`.
pub mod WellFormed
pub mod Room
mod Tests
use lobsim.Base.{
  ℕ, zero, suc, Bool, true, false, Option, none, some, List, [], ◌∷◌, ◌++◌, length, get_or, set,
  leb, if◌then◌else◌,
}

pub record Node (A : Type 0) : Type 0 where
  pub pool_index : ℕ
  pub in_use : Bool
  pub content : A

pub record NodePool (A : Type 0) : Type 0 where
  pub pool : List (Node A)
  pub free_list : List ℕ

-- `std::iota`, with the back of the vector first.
pub iota : ℕ → List ℕ
iota zero = []
iota (suc n) = n ∷ iota n

module _ {A : Type 0} where
  abbrev pub empty_pool : NodePool A
  empty_pool = record { pool = []; free_list = [] }

  abbrev pub size : NodePool A → ℕ
  size p = length p.pool

  -- A node as `NodeType{}` makes it, around the blank content.
  abbrev pub blank_node : A → Node A
  blank_node blank = record { pool_index = 0; in_use = false; content = blank }

  -- `*pointer`.
  abbrev pub deref : A → NodePool A → ℕ → Node A
  deref blank p i = get_or p.pool i (blank_node blank)

  abbrev pub store : NodePool A → ℕ → A → A → NodePool A
  store p i blank content = record p {
    pool = set p.pool i (record (deref blank p i) { content = content });
  }

  abbrev pub grow : A → ℕ → NodePool A → Option ℕ × NodePool A
  grow blank max_capacity p = if leb max_capacity (size p) then (none, p) else (
    some (size p),
    record p {
      pool = p.pool ++ record (blank_node blank) { pool_index = size p; in_use = true } ∷ [];
    },
  )

  -- The pointer, or `none` for `nullptr`, and the pool.
  unfoldable pub acquire : A → ℕ → NodePool A → Option ℕ × NodePool A
  acquire blank max_capacity p = elim p.free_list [
    | [] ↦ grow blank max_capacity p
    | idx ∷ rest ↦ (
      some idx,
      record p {
        pool = set p.pool idx (record (deref blank p idx) { in_use = true });
        free_list = rest;
      },
    )
  ]

  abbrev pub release_node : A → ℕ → NodePool A → NodePool A
  release_node blank i p =
      if (deref blank p i).in_use
      then record p {
        pool = set p.pool i (record (deref blank p i) { in_use = false });
        free_list = (deref blank p i).pool_index ∷ p.free_list;
      }
      else p

  unfoldable pub release : A → Option ℕ → NodePool A → NodePool A
  release blank none p = p
  release blank (some i) p = release_node blank i p

  pub clear_nodes : List (Node A) → List (Node A)
  clear_nodes [] = []
  clear_nodes (n ∷ ns) = record n { in_use = false } ∷ clear_nodes ns

  unfoldable pub reset : NodePool A → NodePool A
  unfolding clear_nodes iota
  reset p = record { pool = clear_nodes p.pool; free_list = iota (size p) }
