-- ===== src/Fenwick/Tests.antt =====
-- Sums of a tree that grows twice.
use lobsim.Base.{pos, negsuc, List, [], ◌∷◌, ◌≡◌, refl, arith, ◌+ℤ◌}
use lobsim.Fenwick.{Call, grow_to, put, run_calls, sum}
use lobsim.Fenwick.Prefix.{added}
use lobsim.Fenwick.Sums.{run_calls-sum}

-- A level of three orders, of which the first is taken from, and that two more join.
abbrev calls : List Call
calls =
    put 4 (pos 9)
    ∷ put 0 (negsuc 1)
    ∷ grow_to 5
    ∷ put 2 (pos 6)
    ∷ put 1 (pos 4)
    ∷ put 0 (pos 5)
    ∷ grow_to 3
    ∷ []

run_calls-sum_example : sum 3 (run_calls calls) ≡ added 3 calls
run_calls-sum_example = run_calls-sum calls 3 (omega arith) (omega arith)

added_here : added 5 calls ≡ pos 22
unfolding ◌+ℤ◌
added_here = refl
