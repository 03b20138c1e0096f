-- ===== src/Engine/Conservation.antt =====
-- The lots of a queue, and what a change of one node does to them. The child has the matching loop.
pub mod Matched
use lobsim.Pool.{size, Node}
use lobsim.Base.{
  set, int_eq, HashMap, ==ℕ_iff, List, [], arith, false, if◌then◌else◌, leb_ℤ, length-set, pos,
  refl, some, ℕ, ℤ, ◌+ℤ◌, ◌<◌, ◌==ℕ◌, ◌∷◌, ◌≡◌, ap, get_or, get_or-set_ne, get_or-set_self,
}
use lobsim.Engine.Cancel.{set_qty}
use lobsim.Engine.Cross.{retire}
use lobsim.Engine.State.{OrderNode, PaperTradingSimulator, blank_order_node, order_node}
use lobsim.Pool.{NodePool, blank_node, deref, release}
use lobsim.Pool.WellFormed.{is_free, get_or-set}

module _ ⦃H : HashMap⦄ where
  abbrev pub live_lots : ℤ → ℤ
  live_lots qty = if leb_ℤ qty (pos 0) then pos 0 else qty

  -- The lots of the orders of a queue; an order with no positive quantity counts for nothing.
  abbrev pub queue_lots : PaperTradingSimulator → List ℕ → ℤ
  queue_lots s [] = pos 0
  queue_lots s (n ∷ ns) = live_lots (order_node s n).qty +ℤ queue_lots s ns

  -- The nodes of a queue are nodes of the pool.
  abbrev pub AllBelow : ℕ → List ℕ → Type 0
  AllBelow k [] = Unit
  AllBelow k (n ∷ ns) = (n < k) × AllBelow k ns

  -- `t` has the orders of `s`, but for the node `n`.
  abbrev pub OnlyNode : ℕ → PaperTradingSimulator → PaperTradingSimulator → Type 0
  OnlyNode n s t =
      (size t.order_pool ≡ size s.order_pool)
      × ((j : ℕ) → (n ==ℕ j) ≡ false → order_node t j ≡ order_node s j)

  pub queue_lots-OnlyNode :
      (n : ℕ) (ns : List ℕ) (s t : PaperTradingSimulator)
      → OnlyNode n s t
      → is_free n ns ≡ false
      → queue_lots t ns ≡ queue_lots s ns
  queue_lots-OnlyNode n [] s t o h = refl
  queue_lots-OnlyNode n (m ∷ ns) s t o h =
      ground (arith, h, o.1 m, ==ℕ_iff m n, ==ℕ_iff n m, queue_lots-OnlyNode n ns s t o)

  size-release :
      (n : ℕ) (p : NodePool OrderNode) → size (release blank_order_node (some n) p) ≡ size p
  unfolding release
  size-release n p =
      ground (arith, length-set p.pool n (record (deref blank_order_node p n) { in_use = false }))

  content-release :
      (n j : ℕ) (p : NodePool OrderNode)
      → n < size p
      → (deref blank_order_node (release blank_order_node (some n) p) j).content
        ≡ (deref blank_order_node p j).content
  unfolding release
  content-release n j p h = ground (
    arith,
    ==ℕ_iff n j,
    get_or-set blank_order_node p.pool (record (deref blank_order_node p n) { in_use = false })
        (blank_node blank_order_node) n j h,
  )

  get_or-set_other :
      (xs : List (Node OrderNode)) (x d : Node OrderNode) (i j : ℕ)
      → (i ==ℕ j) ≡ false
      → get_or (set xs i x) j d ≡ get_or xs j d
  get_or-set_other xs x d i j ne =
      get_or-set_ne xs i j x d (λ e. ground (arith, ne, e, ==ℕ_iff i j))

  pub set_qty-OnlyNode :
      (n : ℕ) (qty : ℤ) (s : PaperTradingSimulator)
      → n < size s.order_pool
      → OnlyNode n s (set_qty n qty s) × ((order_node (set_qty n qty s) n).qty ≡ qty)
  set_qty-OnlyNode n qty s h =
      let x = record (deref blank_order_node s.order_pool n) {
        content = record (order_node s n) { qty = qty };
      } in
      let d = blank_node blank_order_node in
      (
        (
          length-set s.order_pool.pool n x,
          λ j ne.
              ap (λ (y : Node OrderNode). y.content)
                (get_or-set_other s.order_pool.pool x d n j ne),
        ),
        ap (λ (y : Node OrderNode). y.content.qty) (get_or-set_self s.order_pool.pool n x d h),
      )

  pub retire-same :
      (n : ℕ) (s : PaperTradingSimulator)
      → n < size s.order_pool
      → (size (retire n s).order_pool ≡ size s.order_pool)
        × ((j : ℕ) → order_node (retire n s) j ≡ order_node s j)
  retire-same n s h = (size-release n s.order_pool, λ j. content-release n j s.order_pool h)
