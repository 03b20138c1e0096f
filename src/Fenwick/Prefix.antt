-- ===== src/Fenwick/Prefix.antt =====
-- What the tree's entries are: differences of prefix sums. `sum` and the loop of `ensure_size` by it.
use lobsim.Fenwick.{
  FenwickTree, low_bit, at, sum_loop, sum, fill_entry, fill_loop, Call, grow_to, put,
}
use lobsim.Fenwick.LowBit.{low_bit-bounds}
use lobsim.Base.{
  ℕ, zero, suc, ◌+◌, ◌-◌, ◌^◌, ◌<◌, ◌≤◌, ℤ, pos, ◌+ℤ◌, ◌-ℤ◌, ◌&&◌, List, [], ◌∷◌, length, set,
  length-set, leb, ltb, ◌==ℕ◌, ==ℕ_iff, ◌≡◌, refl, ap, sym, subst, ◌∙◌, arith, if◌then◌else◌,
  if_cases, Bool-cases, inl, inr, get_or-set_self, get_or-set_ne, +ℤ_zero, zero_+ℤ, +ℤ_assoc, -ℤ_+ℤ,
}

-- The number of entries that the calls lead to, that at 0 included.
abbrev pub entries : List Call → ℕ
entries [] = 0
entries (grow_to n ∷ cs) = if leb (n + 1) (entries cs) then entries cs else n + 1
entries (put index delta ∷ cs) = entries cs

-- The sum of what was added at indices below `k`, each time when there was an entry for the index.
abbrev pub added : ℕ → List Call → ℤ
added k [] = pos 0
added k (grow_to n ∷ cs) = added k cs
added k (put index delta ∷ cs) =
    if ltb index k && ltb (index + 1) (entries cs) then added k cs +ℤ delta else added k cs

pub added-zero : (cs : List Call) → added 0 cs ≡ pos 0
added-zero [] = refl
added-zero (grow_to n ∷ cs) = added-zero cs
added-zero (put index delta ∷ cs) = ground (arith, added-zero cs)

-- Nothing was added past the entries.
pub added-past : (i : ℕ) (cs : List Call) → entries cs ≤ i + 1 → added (i + 1) cs ≡ added i cs
added-past i [] h = refl
added-past i (grow_to n ∷ cs) h = added-past i cs (ground (arith, h))
added-past i (put index delta ∷ cs) h = ground (arith, h, added-past i cs h)

-- Each entry up to `m` is the difference of two sums, by the step back of the loop of `sum`.
abbrev pub Stands : (ℕ → ℤ) → ℕ → List ℤ → Type 0
Stands a m t = (i : ℕ) → 0 < i → i < m → at t i +ℤ a (i - low_bit i) ≡ a i

pub at-set :
    (t : List ℤ) (i j : ℕ) (v : ℤ)
    → i < length t
    → at (set t i v) j ≡ (if i ==ℕ j then v else at t j)
at-set t i j v h =
    if_cases (λ x. at (set t i v) j ≡ x) (i ==ℕ j) v (at t j)
      (λ e. rw (sym ((==ℕ_iff i j).0 e)) (get_or-set_self t i v (pos 0) h))
      (λ ne. get_or-set_ne t i j v (pos 0) (λ e. ground (arith, ne, e, ==ℕ_iff i j)))

at_start : (a : ℕ → ℤ) (i : ℕ) → i ≡ 0 → a 0 ≡ pos 0 → a i ≡ pos 0
at_start a i e start = ap a e ∙ start

sum_loop-Stands :
    (a : ℕ → ℤ) (m n i : ℕ) (t : List ℤ) (res : ℤ)
    → a 0 ≡ pos 0
    → m < 2 ^ 63
    → i < m
    → i ≤ n
    → Stands a m t
    → sum_loop n t i res ≡ res +ℤ a i
unfolding sum_loop
sum_loop-Stands a m zero i t res start small below enough h =
    sym (ap (λ x. res +ℤ x) (at_start a i (omega (arith, enough)) start) ∙ +ℤ_zero res)
sum_loop-Stands a m (suc n) i t res start small below enough h = elim (Bool-cases (ltb 0 i)) [
  | inr none_left ↦
      let same : res +ℤ a i ≡ res =
        ap (λ x. res +ℤ x) (at_start a i (ground (arith, none_left)) start) ∙ +ℤ_zero res in
      rw (none_left, sum_loop) (sym same)
  | inl more ↦
      let some_left : 0 < i = ground (arith, more) in
      let step = low_bit-bounds i some_left (omega (arith, small, below)) in
      rw (more, sum_loop)
        (sum_loop-Stands a m n (i - low_bit i) t (res +ℤ at t i) start small (omega (arith, below))
            (omega (arith, step.0, some_left, enough)) h
          ∙ +ℤ_assoc res (at t i) (a (i - low_bit i))
          ∙ ap (λ x. res +ℤ x) (h i some_left below))
]

pub sum-Stands :
    (a : ℕ → ℤ) (m i : ℕ) (t : FenwickTree)
    → a 0 ≡ pos 0
    → m < 2 ^ 63
    → i < m
    → Stands a m t.tree
    → sum i t ≡ a i
unfolding sum
sum-Stands a m i t start small below h =
    sum_loop-Stands a m i i t.tree (pos 0) start small below (omega arith) h ∙ zero_+ℤ (a i)

fill_entry-Stands :
    (a : ℕ → ℤ) (i : ℕ) (t : FenwickTree)
    → a 0 ≡ pos 0
    → (0 < i → a i ≡ a (i - 1))
    → i < length t.tree
    → length t.tree < 2 ^ 63
    → Stands a i t.tree
    → (length (fill_entry i t).tree ≡ length t.tree) × Stands a (i + 1) (fill_entry i t).tree
fill_entry-Stands a i t start flat below small h =
    if_cases (λ (x : FenwickTree). (length x.tree ≡ length t.tree) × Stands a (i + 1) x.tree)
      (i ==ℕ 0) _ _
      (λ first. (refl, λ j lo hi. absurd (omega (arith, lo, hi, (==ℕ_iff i 0).0 first))))
      (λ later.
        let more : 0 < i = ground (arith, later, ==ℕ_iff i 0) in
        let step = low_bit-bounds i more (omega (arith, below, small)) in
        let v = sum (i - 1) t -ℤ sum (i - low_bit i) t in
        let value : v +ℤ a (i - low_bit i) ≡ a i =
          rw
            (
              sum-Stands a i (i - 1) t start (omega (arith, below, small)) (omega (arith, more)) h,
              sum-Stands a i (i - low_bit i) t start (omega (arith, below, small))
                  (omega (arith, step, more)) h,
            )
            (-ℤ_+ℤ (a (i - 1)) (a (i - low_bit i)) ∙ sym (flat more)) in
        (
          length-set t.tree i v,
          λ j lo hi. elim (Bool-cases (i ==ℕ j)) [
            | inl same ↦
                rw (at-set t.tree i j v below, same)
                  (subst (λ x. v +ℤ a (x - low_bit x) ≡ a x) ((==ℕ_iff i j).0 same) value)
            | inr other ↦
                rw (at-set t.tree i j v below, other)
                  (h j lo (ground (arith, hi, other, ==ℕ_iff i j)))
          ],
        ))

pub fill_loop-Stands :
    (a : ℕ → ℤ) (rounds i : ℕ) (t : FenwickTree)
    → a 0 ≡ pos 0
    → ((j : ℕ) → i ≤ j + 1 → a (j + 1) ≡ a j)
    → length t.tree ≡ i + rounds
    → length t.tree < 2 ^ 63
    → Stands a i t.tree
    → (length (fill_loop rounds i t).tree ≡ i + rounds)
      × Stands a (i + rounds) (fill_loop rounds i t).tree
unfolding fill_loop
fill_loop-Stands a zero i t start flat size small h = (size, λ j lo hi. h j lo (omega (arith, hi)))
fill_loop-Stands a (suc rounds) i t start flat size small h =
    let flat_here : 0 < i → a i ≡ a (i - 1) =
      λ more. ap a (omega (arith, more)) ∙ flat (i - 1) (omega (arith, more)) in
    let entry = fill_entry-Stands a i t start flat_here (omega (arith, size)) small h in
    let rest =
      fill_loop-Stands a rounds (i + 1) (fill_entry i t) start (λ j k. flat j (omega (arith, k)))
        (omega (arith, size, entry.0)) (omega (arith, small, entry.0)) entry.1 in
    (omega (arith, rest.0), λ j lo hi. rest.1 j lo (omega (arith, hi)))
