-- ===== src/Fenwick/Sums.antt =====
-- The tree against the history of its calls: `sum` is the sum of what was added below an index.
use lobsim.Fenwick.{
  FenwickTree, low_bit, at, sum, add_loop, add, ensure_size, Call, grow_to, put, run_calls,
}
use lobsim.Fenwick.LowBit.{low_bit-bounds}
use lobsim.Fenwick.Prefix.{
  entries, added, added-zero, added-past, Stands, sum-Stands, fill_loop-Stands,
}
use lobsim.Fenwick.Reached.{add_loop-at, put_entry}
use lobsim.Base.{
  ℕ, zero, suc, ◌+◌, ◌-◌, ◌^◌, ◌<◌, ℤ, pos, ◌+ℤ◌, List, [], ◌∷◌, ◌++◌, length, replicate,
  length-append, leb, ltb, ◌≡◌, refl, ◌∙◌, arith, if◌then◌else◌, Bool-cases, inl, inr,
  length-replicate,
}

at-append : (xs ys : List ℤ) (i : ℕ) → i < length xs → at (xs ++ ys) i ≡ at xs i
at-append [] ys i h = absurd (omega (arith, h))
at-append (x ∷ xs) ys zero h = refl
at-append (x ∷ xs) ys (suc i) h = at-append xs ys i (omega (arith, h))

-- The tree has as many entries as the calls lead to, and each of them stands.
abbrev IsSummed : List Call → FenwickTree → Type 0
IsSummed cs t = (length t.tree ≡ entries cs) × Stands (λ k. added k cs) (entries cs) t.tree

IsSummed-ensure_size :
    (n : ℕ) (cs : List Call) (t : FenwickTree)
    → entries (grow_to n ∷ cs) < 2 ^ 63
    → IsSummed cs t
    → IsSummed (grow_to n ∷ cs) (ensure_size n t)
unfolding ensure_size
IsSummed-ensure_size n cs t small (size, h) = elim (Bool-cases (leb (n + 1) (entries cs))) [
  | inl enough ↦ rw (size, enough) (size, h)
  | inr short ↦
      let k = n + 1 - entries cs in
      let more : entries cs < n + 1 = ground (arith, short) in
      let full : entries cs + k ≡ n + 1 = omega (arith, more) in
      let all_small : n + 1 < 2 ^ 63 = ground (arith, small, short) in
      let wide : FenwickTree = record { tree = t.tree ++ replicate k (pos 0) } in
      let wide_size : length wide.tree ≡ entries cs + k =
        omega
          (arith, length-append t.tree (replicate k (pos 0)), size, length-replicate k (pos 0)) in
      let rest =
        fill_loop-Stands (λ j. added j cs) k (entries cs) wide (added-zero cs)
          (λ j past. added-past j cs past) wide_size (omega (arith, wide_size, full, all_small))
          (λ j lo hi.
            rw (at-append t.tree (replicate k (pos 0)) j (omega (arith, size, hi))) (h j lo hi)) in
      rw (size, short) (rest.0 ∙ full, λ j lo hi. rest.1 j lo (omega (arith, hi, full)))
]

-- A sum up to an entry gains by the call if its index is below: then there is an entry for the index.
put_within :
    (index k : ℕ) (delta : ℤ) (cs : List Call)
    → k < entries cs
    → added k (put index delta ∷ cs) ≡ (if ltb index k then added k cs +ℤ delta else added k cs)
put_within index k delta cs h = ground (arith, h)

IsSummed-add :
    (index : ℕ) (delta : ℤ) (cs : List Call) (t : FenwickTree)
    → entries cs < 2 ^ 63
    → IsSummed cs t
    → IsSummed (put index delta ∷ cs) (add index delta t)
unfolding add
IsSummed-add index delta cs t small (size, h) =
    let loop =
      add_loop-at (index + 1) (length t.tree) (index + 1) delta t.tree (omega (arith, size, small))
        (omega arith) (omega arith)
        (λ k.
          let step = low_bit-bounds (index + 1) (omega arith) (omega (arith, k, size, small)) in
          omega (arith, step.0))
        (omega arith) in
    (
      loop.0 ∙ size,
      λ j lo hi.
          put_entry (λ k. added k cs) (λ k. added k (put index delta ∷ cs)) (at t.tree j)
            (at (add_loop (length t.tree) (index + 1) delta t.tree) j) delta index j (low_bit j)
            (low_bit-bounds j lo (omega (arith, hi, small))).1 (h j lo hi)
            (loop.1 j (omega (arith, hi, size)))
            (λ k below. put_within index k delta cs (omega (arith, below, hi))),
    )

smaller : (n : ℕ) (cs : List Call) → entries (grow_to n ∷ cs) < 2 ^ 63 → entries cs < 2 ^ 63
smaller n cs h = ground (arith, h)

run_calls-IsSummed : (cs : List Call) → entries cs < 2 ^ 63 → IsSummed cs (run_calls cs)
unfolding run_calls
run_calls-IsSummed [] small = (refl, λ j lo hi. absurd (omega (arith, hi)))
run_calls-IsSummed (grow_to n ∷ cs) small =
    IsSummed-ensure_size n cs (run_calls cs) (omega (arith, small))
      (run_calls-IsSummed cs (smaller n cs small))
run_calls-IsSummed (put index delta ∷ cs) small =
    IsSummed-add index delta cs (run_calls cs) small (run_calls-IsSummed cs small)

-- After any calls of `ensure_size` and `add` of an empty tree, to fewer than 2 ^ 63 entries, `sum` of a count
-- that has an entry is the sum of all that was added at indices below the count, by calls of `add` that
-- found an entry for their index.
pub run_calls-sum :
    (cs : List Call) (count : ℕ)
    → entries cs < 2 ^ 63
    → count < entries cs
    → sum count (run_calls cs) ≡ added count cs
run_calls-sum cs count small below =
    sum-Stands (λ k. added k cs) (entries cs) count (run_calls cs) (added-zero cs) small below
      (run_calls-IsSummed cs small).1
