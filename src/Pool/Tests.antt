-- ===== src/Pool/Tests.antt =====
-- A pool of two nodes, one of which has been given back.
use lobsim.Base.{ℕ, arith, ◌<◌, some}
use lobsim.Pool.{NodePool, acquire, empty_pool, release}
use lobsim.Pool.WellFormed.{IsFresh, acquire-IsFresh, acquired, no_calls, released}
use lobsim.Pool.{size}

abbrev one_back : NodePool ℕ
one_back = release 0 (some 0) (acquire 0 4 (acquire 0 4 empty_pool).1).1

two_nodes : 0 < size (acquire 0 4 (acquire 0 4 (empty_pool {A = ℕ})).1).1
unfolding acquire
two_nodes = omega arith

acquire-IsFresh_example : IsFresh 0 one_back (acquire 0 4 one_back)
acquire-IsFresh_example =
    acquire-IsFresh 0 4 one_back
      (released _ 0 two_nodes (acquired _ (acquired empty_pool no_calls)))
